-- ===== src/Bot/Territory.antt =====
-- bot-baremetal/core/territory_map.c: what the bot knows of its surroundings.
pub mod Observe
pub mod Census
pub mod Pools
pub mod Kept
pub mod Watch
pub mod Sightings
use operating_organism.Prelude.{
  if◌then◌else◌, u64, ℕ, zero, suc, ◌+◌, Bool, false, Option, none, some, List, [], ◌∷◌,
}
use operating_organism.Bot.History.{History, push, last}

-- `ElemStatus`
pub data ElemStatus : Type 0 where
  unknown trusted grey suspicious hostile quarantine : ElemStatus

-- A text is the list of its bytes. The fields that no code of the component writes after clearing
-- them are left out of the records.
pub record MappedProcess : Type 0 where
  pub pid : ℕ
  pub ppid : ℕ
  pub name : List ℕ
  pub path : List ℕ
  pub first_seen : ℕ
  pub last_seen : ℕ
  pub observation_count : ℕ
  pub status : ElemStatus

pub record MappedConnection : Type 0 where
  pub remote_ip : List ℕ
  pub remote_port : ℕ
  pub status : ElemStatus
  pub owning_pid : ℕ
  pub bytes_sent : ℕ
  pub connection_count : ℕ
  pub last_seen : ℕ

pub record WatchedFile : Type 0 where
  pub path : List ℕ
  pub last_verified : ℕ
  pub is_intact : Bool
  pub is_critical : ℕ

pub record MappedMemRegion : Type 0 where
  pub base_addr : ℕ
  pub size : ℕ
  pub owning_pid : ℕ
  pub is_executable : Bool
  pub is_writable : Bool
  pub status : ElemStatus

-- The text of an anomaly: a name, the address and port that a line is printed from, or one of the
-- two fixed texts on memory.
pub data Description : Type 0 where
  named : List ℕ → Description
  new_connection : List ℕ → ℕ → Description
  became_wx new_wx : Description

pub data AnomalyType : Type 0 where
  new_process unknown_connection mem_exec_write : AnomalyType

pub record TerritoryAnomaly : Type 0 where
  pub timestamp : ℕ
  pub pid : ℕ
  pub anomaly_type : AnomalyType
  pub severity : ℕ
  pub description : Description

abbrev pub max_processes : ℕ
max_processes = 512

abbrev pub max_connections : ℕ
max_connections = 256

abbrev pub max_watched_files : ℕ
max_watched_files = 64

abbrev pub max_mem_regions : ℕ
max_mem_regions = 128

-- The map, with the static counter of `_now_placeholder`. A pool and its count are the list of the
-- entries in use.
pub record TerritoryMap : Type 0 where
  pub processes : List MappedProcess
  pub connections : List MappedConnection
  pub watched_files : List WatchedFile
  pub mem_regions : List MappedMemRegion
  pub anomalies : History TerritoryAnomaly
  pub baseline_ready : Bool
  pub baseline_time : ℕ
  pub total_observations : ℕ
  pub total_anomalies : ℕ
  pub now : ℕ

-- `territory_map_init`; `zero_anomaly` is the anomaly of zero bytes, and the clock goes on.
unfoldable pub init : TerritoryAnomaly → ℕ → TerritoryMap
init zero_anomaly now = record {
  processes = [];
  connections = [];
  watched_files = [];
  mem_regions = [];
  anomalies = record { slots = λ i. zero_anomaly; head = 0; count = 0 };
  baseline_ready = false;
  baseline_time = 0;
  total_observations = 0;
  total_anomalies = 0;
  now = now;
}

-- `_now_placeholder`: the time that it answers is the field of the map after it.
abbrev pub tick : TerritoryMap → TerritoryMap
tick m = record m { now = u64 (m.now + 1) }

-- `territory_record_anomaly`
unfoldable pub record_anomaly : TerritoryMap → AnomalyType → ℕ → ℕ → Description → TerritoryMap
record_anomaly m₀ kind severity pid text =
    let m = tick m₀ in
    record m {
      anomalies = push m.anomalies (record {
        timestamp = m.now;
        pid = pid;
        anomaly_type = kind;
        severity = severity;
        description = text;
      });
      total_anomalies = u64 (m.total_anomalies + 1);
    }

-- The index of the first entry that a test accepts.
pub find_index {ℓ} : {A : Type ℓ} → (A → Bool) → List A → Option ℕ
find_index p [] = none
find_index p (x ∷ xs) =
    if p x then some 0 else elim (find_index p xs) [ none ↦ none | some i ↦ some (suc i) ]

-- The entry at an index, changed.
pub modify {ℓ} : {A : Type ℓ} → (A → A) → ℕ → List A → List A
modify f i [] = []
modify f zero (x ∷ xs) = f x ∷ xs
modify f (suc i) (x ∷ xs) = x ∷ modify f i xs

-- `territory_last_anomaly`
unfoldable last_anomaly : TerritoryMap → Option TerritoryAnomaly
last_anomaly m = last m.anomalies
