-- ===== src/Bot/Territory/Pools.antt =====
-- What is to hold of the pools of the territory map, and how a pool keeps it.
use operating_organism.Prelude.{
  leb, ◌==◌, length, length-append, length-map, All, ℕ, ◌≤◌, ◌≡◌, Bool, true, false, ◌&&◌, none,
  List, [], ◌∷◌, ◌++◌, map, arith,
}
use operating_organism.Bot.Territory.{
  suspicious, MappedProcess, MappedConnection, MappedMemRegion, Description, max_processes,
  max_connections, max_watched_files, max_mem_regions, TerritoryMap, record_anomaly, find_index,
  modify,
}
use operating_organism.Bot.Territory.Observe.{same_bytes, report}
use operating_organism.Bot.Territory.Census.{
  Apart, find-none, length-modify, Apart-snoc, Apart-modify, Apart-map,
}

abbrev pub same_pid : MappedProcess → MappedProcess → Bool
same_pid p q = p.pid == q.pid

abbrev pub same_remote : MappedConnection → MappedConnection → Bool
same_remote c d = c.remote_port == d.remote_port && same_bytes c.remote_ip d.remote_ip

abbrev pub same_region : MappedMemRegion → MappedMemRegion → Bool
same_region r s = r.base_addr == s.base_addr && r.owning_pid == s.owning_pid

-- A region that can be written and run is under suspicion.
abbrev pub IsGuarded : MappedMemRegion → Type 0
IsGuarded r = (r.is_executable && r.is_writable) ≡ true → r.status ≡ suspicious

-- A pool within its size, in which no key stands twice.
abbrev IsPool {ℓ} : {A : Type ℓ} → ℕ → (A → A → Bool) → List A → Type 0
IsPool room same xs = (length xs ≤ room) × Apart same xs

-- The pools are pools, regions are guarded, and watched files count as intact.
pub record IsValid (m : TerritoryMap) : Type 0 where
  pub processes : IsPool max_processes same_pid m.processes
  pub connections : IsPool max_connections same_remote m.connections
  pub regions : IsPool max_mem_regions same_region m.mem_regions
  pub guarded : All IsGuarded m.mem_regions
  pub files : length m.watched_files ≤ max_watched_files
  pub intact : All (λ f. f.is_intact ≡ true) m.watched_files

pub snoc_fits {ℓ} :
    {A : Type ℓ} (room : ℕ) (xs : List A) (x : A)
    → leb room (length xs) ≡ false
    → length (xs ++ (x ∷ [])) ≤ room
snoc_fits room xs x k = ground (arith, k, length-append xs (x ∷ []))

module _ {ℓ} {A : Type ℓ} (room : ℕ) (same : A → A → Bool) where
  pub snoc-IsPool :
      (xs : List A) (x : A)
      → find_index (λ y. same y x) xs ≡ none
      → leb room (length xs) ≡ false
      → IsPool room same xs
      → IsPool room same (xs ++ (x ∷ []))
  snoc-IsPool xs x e k (h, a) =
      (snoc_fits room xs x k, Apart-snoc same xs x (find-none (λ y. same y x) xs e) a)

  module _ (f : A → A) (left : (x y : A) → same (f x) y ≡ same x y)
      (right : (x y : A) → same x (f y) ≡ same x y) (xs : List A) (v : IsPool room same xs) where
    pub modify-IsPool : (i : ℕ) → IsPool room same (modify f i xs)
    modify-IsPool i = (rw (length-modify f i xs) v.0, Apart-modify same f left right i xs v.1)

    pub map-IsPool : IsPool room same (map f xs)
    map-IsPool = (rw (length-map xs f) v.0, Apart-map same f left right xs v.1)

pub report-IsValid :
    (dangerous : Bool) (m : TerritoryMap) (severity pid : ℕ) (text : Description)
    → IsValid m
    → IsValid (report dangerous m severity pid text)
unfolding record_anomaly
report-IsValid true m severity pid text v = record {
  processes = v.processes;
  connections = v.connections;
  regions = v.regions;
  guarded = v.guarded;
  files = v.files;
  intact = v.intact;
}
report-IsValid false m severity pid text v = v
