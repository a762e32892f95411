-- ===== src/Bot/Territory/Observe.antt =====
-- bot-baremetal/core/territory_map.c: what the bot observes, marks, watches and trusts.
use operating_organism.Prelude.{
  leb, ◌==◌, if◌then◌else◌, not, length, get_elem?, take, u32, u64, ℕ, ◌+◌, Bool, true, false, ◌&&◌,
  ◌||◌, Option, none, some, List, [], ◌∷◌, ◌++◌, map,
}
use operating_organism.Bot.Territory.{
  ElemStatus, unknown, trusted, suspicious, MappedProcess, MappedConnection, WatchedFile,
  MappedMemRegion, Description, named, new_connection, became_wx, new_wx, new_process,
  unknown_connection, mem_exec_write, max_processes, max_connections, max_watched_files,
  max_mem_regions, TerritoryMap, tick, record_anomaly, find_index, modify,
}

-- "unknown"
abbrev unknown_name : List ℕ
unknown_name = 117 ∷ 110 ∷ 107 ∷ 110 ∷ 111 ∷ 119 ∷ 110 ∷ []

-- `territory_observe_process`: the new map, and the index of the entry.
unfoldable pub observe_process :
    TerritoryMap → ℕ → ℕ → Option (List ℕ) → Option (List ℕ) → TerritoryMap × Option ℕ
unfolding find_index modify
observe_process m₀ pid ppid name path = elim (find_index (λ p. p.pid == pid) m₀.processes) [
  | some i ↦
      let m = tick m₀ in
      (
        record m {
          processes =
              modify
                (λ p. record p {
                  last_seen = m.now;
                  observation_count = u32 (p.observation_count + 1);
                })
                i m.processes;
          total_observations = u64 (m.total_observations + 1);
        },
        some i,
      )
  | none ↦
      if leb max_processes (length m₀.processes)
      then (m₀, none)
      else let m = tick m₀ in
        let proc : MappedProcess = record {
          pid = pid;
          ppid = ppid;
          name = elim name [ none ↦ [] | some text ↦ take 63 text ];
          path = elim path [ none ↦ [] | some text ↦ take 255 text ];
          first_seen = m.now;
          last_seen = m.now;
          observation_count = 1;
          status = unknown;
        } in
        let m' = record m {
          processes = m.processes ++ (proc ∷ []);
          total_observations = u64 (m.total_observations + 1);
        } in
        (
          record_anomaly m' new_process 3 pid
              (named (elim name [ none ↦ unknown_name | some text ↦ take 127 text ])),
          some (length m₀.processes),
        )
]

-- `territory_mark_process`
unfoldable pub mark_process : TerritoryMap → ℕ → ElemStatus → TerritoryMap
unfolding find_index modify
mark_process m pid status = elim (find_index (λ p. p.pid == pid) m.processes) [
  | none ↦ m
  | some i ↦ record m { processes = modify (λ p. record p { status = status }) i m.processes }
]

-- `memcmp` of two addresses of four bytes.
abbrev pub same_bytes : List ℕ → List ℕ → Bool
same_bytes [] [] = true
same_bytes [] (y ∷ ys) = false
same_bytes (x ∷ xs) [] = false
same_bytes (x ∷ xs) (y ∷ ys) = x == y && same_bytes xs ys

-- `territory_observe_connection`, for an address of four bytes.
unfoldable pub observe_connection : TerritoryMap → ℕ → List ℕ → ℕ → ℕ → TerritoryMap × Option ℕ
unfolding find_index modify
observe_connection m₀ pid ip port bytes =
    elim (find_index (λ c. c.remote_port == port && same_bytes c.remote_ip ip) m₀.connections) [
      | some i ↦
          let m = tick m₀ in
          (
            record m {
              connections =
                  modify
                    (λ c. record c {
                      connection_count = u64 (c.connection_count + 1);
                      bytes_sent = u64 (c.bytes_sent + bytes);
                      last_seen = m.now;
                      owning_pid = pid;
                    })
                    i m.connections;
              total_observations = u64 (m.total_observations + 1);
            },
            some i,
          )
      | none ↦
          if leb max_connections (length m₀.connections)
          then (m₀, none)
          else let m = tick m₀ in
            let conn : MappedConnection = record {
              remote_ip = ip;
              remote_port = port;
              status = unknown;
              owning_pid = pid;
              bytes_sent = bytes;
              connection_count = 1;
              last_seen = m.now;
            } in
            let m' = record m {
              connections = m.connections ++ (conn ∷ []);
              total_observations = u64 (m.total_observations + 1);
            } in
            (
              record_anomaly m' unknown_connection 2 pid (new_connection ip port),
              some (length m₀.connections),
            )
    ]

-- `territory_watch_file`: the new map, and whether it answers 0 rather than -1.
unfoldable pub watch_file : TerritoryMap → List ℕ → ℕ → TerritoryMap × Bool
watch_file m₀ path critical =
    if leb max_watched_files (length m₀.watched_files)
    then (m₀, false)
    else let m = tick m₀ in
      let file : WatchedFile = record {
        path = take 255 path;
        last_verified = m.now;
        is_intact = true;
        is_critical = critical;
      } in
      (record m { watched_files = m.watched_files ++ (file ∷ []) }, true)

-- The loop of `territory_verify_files`.
abbrev pub count_modified : List WatchedFile → ℕ → ℕ
count_modified [] n = n
count_modified (f ∷ fs) n = count_modified fs (if f.is_intact then n else n + 1)

-- `territory_verify_files`
unfoldable pub verify_files : TerritoryMap → ℕ
verify_files m = count_modified m.watched_files 0

-- The region becomes both writable and executable, and was not before.
abbrev danger : Bool → Bool → MappedMemRegion → Bool
danger exec write r = exec && (write && (not r.is_executable || not r.is_writable))

-- What an observation makes of a region that is known.
abbrev pub set_flags : Bool → Bool → MappedMemRegion → MappedMemRegion
set_flags exec write r = record r {
  status = if danger exec write r then suspicious else r.status;
  is_executable = exec;
  is_writable = write;
}

-- An anomaly of memory, under a condition.
abbrev pub report : Bool → TerritoryMap → ℕ → ℕ → Description → TerritoryMap
report dangerous m severity pid text =
    if dangerous then record_anomaly m mem_exec_write severity pid text else m

-- `territory_observe_mem`; a permission is a flag, whatever its byte.
unfoldable pub observe_mem : TerritoryMap → ℕ → ℕ → ℕ → Bool → Bool → TerritoryMap × Option ℕ
unfolding find_index modify
observe_mem m base size pid exec write =
    elim (find_index (λ r. r.base_addr == base && r.owning_pid == pid) m.mem_regions) [
      | some i ↦
          let dangerous : Bool = elim (get_elem? m.mem_regions i) [
            | none ↦ false
            | some r ↦ danger exec write r
          ] in
          let m' = record m { mem_regions = modify (set_flags exec write) i m.mem_regions } in
          (report dangerous m' 7 pid became_wx, some i)
      | none ↦
          if leb max_mem_regions (length m.mem_regions)
          then (m, none)
          else let region : MappedMemRegion = record {
            base_addr = base;
            size = size;
            owning_pid = pid;
            is_executable = exec;
            is_writable = write;
            status = if exec && write then suspicious else unknown;
          } in
            let m' = record m {
              mem_regions = m.mem_regions ++ (region ∷ []);
              total_observations = u64 (m.total_observations + 1);
            } in
            (report (exec && write) m' 8 pid new_wx, some (length m.mem_regions))
    ]

-- What a baseline makes of a status.
abbrev pub trust : ElemStatus → ElemStatus
trust unknown = trusted
trust s = s

-- `territory_establish_baseline`
unfoldable pub establish_baseline : TerritoryMap → TerritoryMap
establish_baseline m₀ =
    let m = tick m₀ in
    record m {
      baseline_ready = true;
      baseline_time = m.now;
      processes = map {A = MappedProcess} (λ p. record p { status = trust p.status }) m.processes;
      connections =
          map {A = MappedConnection} (λ c. record c { status = trust c.status }) m.connections;
      mem_regions =
          map {A = MappedMemRegion} (λ r. record r { status = trust r.status }) m.mem_regions;
    }
