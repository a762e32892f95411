-- ===== src/Bot/Territory/Kept.antt =====
-- Every operation of the territory map keeps what holds of its pools.
use operating_organism.Prelude.{
  leb, ◌==◌, Bool-cases, Option-cases, length, u32, u64, All-map, ℕ, ◌+◌, ◌≡◌, refl, inl, inr, Bool,
  true, ◌&&◌, Option, List, arith,
}
use operating_organism.Bot.Territory.{
  ElemStatus, MappedProcess, MappedConnection, MappedMemRegion, became_wx, new_wx, max_processes,
  max_connections, max_watched_files, max_mem_regions, TerritoryMap, record_anomaly, find_index,
}
use operating_organism.Bot.Territory.Observe.{
  observe_process, mark_process, same_bytes, observe_connection, watch_file, set_flags, observe_mem,
  trust, establish_baseline,
}
use operating_organism.Bot.Territory.Census.{All-snoc, All-modify}
use operating_organism.Bot.Territory.Pools.{
  same_pid, same_remote, same_region, IsGuarded, IsValid, snoc_fits, snoc-IsPool, modify-IsPool,
  map-IsPool, report-IsValid,
}

module _ (m : TerritoryMap) (v : IsValid m) where
  pub observe_process-IsValid :
      (pid ppid : ℕ) (name path : Option (List ℕ))
      → IsValid (observe_process m pid ppid name path).0
  unfolding observe_process record_anomaly
  observe_process-IsValid pid ppid name path =
      elim (Option-cases (find_index (λ p. p.pid == pid) m.processes)) [
        | inl e ↦
            rw (observe_process, e)
              (elim (Bool-cases (leb max_processes (length m.processes))) [
                | inl k ↦ rw (observe_process, k) v
                | inr k ↦ rw k (record {
                  processes = snoc-IsPool max_processes same_pid m.processes _ e k v.processes;
                  connections = v.connections;
                  regions = v.regions;
                  guarded = v.guarded;
                  files = v.files;
                  intact = v.intact;
                })
              ])
        | inr (i, e) ↦
            rw (observe_process, e)
              (record {
                processes =
                    modify-IsPool max_processes same_pid
                      (λ (p : MappedProcess). record p {
                        last_seen = u64 (m.now + 1);
                        observation_count = u32 (p.observation_count + 1);
                      })
                      (λ x y. refl) (λ x y. refl) m.processes v.processes i;
                connections = v.connections;
                regions = v.regions;
                guarded = v.guarded;
                files = v.files;
                intact = v.intact;
              })
      ]

  pub observe_connection-IsValid :
      (pid : ℕ) (ip : List ℕ) (port bytes : ℕ) → IsValid (observe_connection m pid ip port bytes).0
  unfolding observe_connection record_anomaly
  observe_connection-IsValid pid ip port bytes =
      elim (Option-cases
        (find_index (λ c. c.remote_port == port && same_bytes c.remote_ip ip) m.connections)) [
          | inl e ↦
              rw (observe_connection, e)
                (elim (Bool-cases (leb max_connections (length m.connections))) [
                  | inl k ↦ rw (observe_connection, k) v
                  | inr k ↦ rw k (record {
                    processes = v.processes;
                    connections =
                        snoc-IsPool max_connections same_remote m.connections _ e k v.connections;
                    regions = v.regions;
                    guarded = v.guarded;
                    files = v.files;
                    intact = v.intact;
                  })
                ])
          | inr (i, e) ↦
              rw (observe_connection, e)
                (record {
                  processes = v.processes;
                  connections =
                      modify-IsPool max_connections same_remote
                        (λ (c : MappedConnection). record c {
                          connection_count = u64 (c.connection_count + 1);
                          bytes_sent = u64 (c.bytes_sent + bytes);
                          last_seen = u64 (m.now + 1);
                          owning_pid = pid;
                        })
                        (λ x y. refl) (λ x y. refl) m.connections v.connections i;
                  regions = v.regions;
                  guarded = v.guarded;
                  files = v.files;
                  intact = v.intact;
                })
        ]

  set_flags-IsGuarded :
      (exec write : Bool) (r : MappedMemRegion) → IsGuarded r → IsGuarded (set_flags exec write r)
  set_flags-IsGuarded exec write r h = ground (arith, h)

  pub observe_mem-IsValid :
      (base size pid : ℕ) (exec write : Bool) → IsValid (observe_mem m base size pid exec write).0
  unfolding observe_mem
  observe_mem-IsValid base size pid exec write =
      elim (Option-cases
        (find_index (λ r. r.base_addr == base && r.owning_pid == pid) m.mem_regions)) [
          | inl e ↦
              rw (observe_mem, e)
                (elim (Bool-cases (leb max_mem_regions (length m.mem_regions))) [
                  | inl k ↦ rw (observe_mem, k) v
                  | inr k ↦ rw k (
                      report-IsValid (exec && write) _ 8 pid new_wx (record {
                        processes = v.processes;
                        connections = v.connections;
                        regions =
                            snoc-IsPool max_mem_regions same_region m.mem_regions _ e k v.regions;
                        guarded = All-snoc IsGuarded m.mem_regions _ v.guarded (ground arith);
                        files = v.files;
                        intact = v.intact;
                      }))
                ])
          | inr (i, e) ↦
              rw (observe_mem, e)
                (report-IsValid _ _ 7 pid became_wx (record {
                  processes = v.processes;
                  connections = v.connections;
                  regions =
                      modify-IsPool max_mem_regions same_region (set_flags exec write) (λ x y. refl)
                        (λ x y. refl) m.mem_regions v.regions i;
                  guarded =
                      All-modify (set_flags exec write) i m.mem_regions
                        (set_flags-IsGuarded exec write) v.guarded;
                  files = v.files;
                  intact = v.intact;
                }))
        ]

  pub watch_file-IsValid : (path : List ℕ) (critical : ℕ) → IsValid (watch_file m path critical).0
  unfolding watch_file
  watch_file-IsValid path critical =
      elim (Bool-cases (leb max_watched_files (length m.watched_files))) [
        | inl k ↦ rw (watch_file, k) v
        | inr k ↦
            rw (watch_file, k)
              (record {
                processes = v.processes;
                connections = v.connections;
                regions = v.regions;
                guarded = v.guarded;
                files = snoc_fits max_watched_files m.watched_files _ k;
                intact = All-snoc (λ f. f.is_intact ≡ true) m.watched_files _ v.intact refl;
              })
      ]

  pub mark_process-IsValid : (pid : ℕ) (status : ElemStatus) → IsValid (mark_process m pid status)
  unfolding mark_process
  mark_process-IsValid pid status =
      elim (Option-cases (find_index (λ p. p.pid == pid) m.processes)) [
        | inl e ↦ rw (mark_process, e) v
        | inr (i, e) ↦
            rw (mark_process, e)
              (record {
                processes =
                    modify-IsPool max_processes same_pid
                      (λ (p : MappedProcess). record p { status = status }) (λ x y. refl)
                      (λ x y. refl) m.processes v.processes i;
                connections = v.connections;
                regions = v.regions;
                guarded = v.guarded;
                files = v.files;
                intact = v.intact;
              })
      ]

  pub establish_baseline-IsValid : IsValid (establish_baseline m)
  unfolding establish_baseline
  establish_baseline-IsValid = record {
    processes =
        map-IsPool max_processes same_pid
          (λ (p : MappedProcess). record p { status = trust p.status }) (λ x y. refl) (λ x y. refl)
          m.processes v.processes;
    connections =
        map-IsPool max_connections same_remote
          (λ (p : MappedConnection). record p { status = trust p.status }) (λ x y. refl)
          (λ x y. refl) m.connections v.connections;
    regions =
        map-IsPool max_mem_regions same_region
          (λ (p : MappedMemRegion). record p { status = trust p.status }) (λ x y. refl)
          (λ x y. refl) m.mem_regions v.regions;
    guarded =
        All-map IsGuarded (λ (p : MappedMemRegion). record p { status = trust p.status })
          m.mem_regions (λ r h. ground (arith, h)) v.guarded;
    files = v.files;
    intact = v.intact;
  }
