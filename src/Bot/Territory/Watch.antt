-- ===== src/Bot/Territory/Watch.antt =====
-- What holds of the territory map whatever is observed, in whatever order.
use operating_organism.Prelude.{All, ℕ, ◌≡◌, refl, Bool, true, Option, List, [], ◌∷◌, arith}
use operating_organism.Bot.Territory.{
  ElemStatus, WatchedFile, Description, AnomalyType, TerritoryAnomaly, TerritoryMap, init,
  record_anomaly,
}
use operating_organism.Bot.Territory.Observe.{
  observe_process, mark_process, observe_connection, watch_file, count_modified, verify_files,
  observe_mem, establish_baseline,
}
use operating_organism.Bot.Territory.Pools.{IsValid}
use operating_organism.Bot.Territory.Kept.{
  observe_process-IsValid, observe_connection-IsValid, observe_mem-IsValid, watch_file-IsValid,
  mark_process-IsValid, establish_baseline-IsValid,
}

-- A call of one of the operations.
pub data Step : TerritoryMap → TerritoryMap → Type 0 where
  observe_process_step :
      (m : TerritoryMap) (pid ppid : ℕ) (name path : Option (List ℕ))
      → Step m (observe_process m pid ppid name path).0
  mark_process_step :
      (m : TerritoryMap) (pid : ℕ) (status : ElemStatus) → Step m (mark_process m pid status)
  observe_connection_step :
      (m : TerritoryMap) (pid : ℕ) (ip : List ℕ) (port bytes : ℕ)
      → Step m (observe_connection m pid ip port bytes).0
  observe_mem_step :
      (m : TerritoryMap) (base size pid : ℕ) (exec write : Bool)
      → Step m (observe_mem m base size pid exec write).0
  watch_file_step :
      (m : TerritoryMap) (path : List ℕ) (critical : ℕ) → Step m (watch_file m path critical).0
  record_anomaly_step :
      (m : TerritoryMap) (kind : AnomalyType) (severity pid : ℕ) (text : Description)
      → Step m (record_anomaly m kind severity pid text)
  establish_baseline_step : (m : TerritoryMap) → Step m (establish_baseline m)

pub data Reach (from : TerritoryMap) : TerritoryMap → Type 0 where
  here : Reach from from
  next : {m m' : TerritoryMap} → Reach from m → Step m m' → Reach from m'

Step-IsValid : {m m' : TerritoryMap} → Step m m' → IsValid m → IsValid m'
unfolding record_anomaly
Step-IsValid (observe_process_step m pid ppid name path) v =
    observe_process-IsValid m v pid ppid name path
Step-IsValid (mark_process_step m pid status) v = mark_process-IsValid m v pid status
Step-IsValid (observe_connection_step m pid ip port bytes) v =
    observe_connection-IsValid m v pid ip port bytes
Step-IsValid (observe_mem_step m base size pid exec write) v =
    observe_mem-IsValid m v base size pid exec write
Step-IsValid (watch_file_step m path critical) v = watch_file-IsValid m v path critical
Step-IsValid (record_anomaly_step m kind severity pid text) v = record {
  processes = v.processes;
  connections = v.connections;
  regions = v.regions;
  guarded = v.guarded;
  files = v.files;
  intact = v.intact;
}
Step-IsValid (establish_baseline_step m) v = establish_baseline-IsValid m v

-- Whatever is observed, marked, watched and trusted after the start, in whatever order: the pools
-- stay within their sizes, no process, remote end or region has two entries, every region that can
-- be both written and run is SUSPICIOUS, by a baseline too, and every watched file counts as intact.
pub territory-IsValid :
    (zero_anomaly : TerritoryAnomaly) (now : ℕ) {m : TerritoryMap}
    → Reach (init zero_anomaly now) m
    → IsValid m
unfolding init
territory-IsValid z now here = record {
  processes = (omega arith, tt);
  connections = (omega arith, tt);
  regions = (omega arith, tt);
  guarded = tt;
  files = omega arith;
  intact = tt;
}
territory-IsValid z now (next r s) = Step-IsValid s (territory-IsValid z now r)

none_modified :
    (fs : List WatchedFile) (n : ℕ) → All (λ f. f.is_intact ≡ true) fs → count_modified fs n ≡ n
none_modified [] n h = refl
none_modified (f ∷ fs) n (h, hs) = ground (arith, none_modified fs n hs, h)

-- However the map came about, the check of the watched files finds none that is modified.
verify_files_finds_none :
    (zero_anomaly : TerritoryAnomaly) (now : ℕ) {m : TerritoryMap}
    → Reach (init zero_anomaly now) m
    → verify_files m ≡ 0
unfolding verify_files
verify_files_finds_none z now {m} r =
    none_modified m.watched_files 0 (territory-IsValid z now r).intact
