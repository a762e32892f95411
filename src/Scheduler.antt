-- ===== src/Scheduler.antt =====
-- The brainstem scheduler (kernel-baremetal/src/oo_scheduler.c and include/oo_scheduler.h).
-- `organ_pool` is a list of tasks, and a pointer into it is an index. A walk along the `next`
-- pointers takes fuel: `none` means that it is still going on.
pub mod Walk
pub mod Register
pub mod Shift
pub mod Sleep
mod Examples
use mathlib.Core.Option
use operating_organism.Prelude.{
  ltb, ◌==◌, if◌then◌else◌, not, set, get_or, replicate, u8, u64, ℕ, zero, suc, ◌+◌, ◌%◌, Bool,
  true, false, ◌&&◌, Option, none, some, List, [], ◌∷◌, map,
}
use operating_organism.Bus.{Bus, absorb}

-- `oo_homeostasis_state_t`
pub data HomeostasisState : Type 0 where
  relaxed vigilant combat survival : HomeostasisState

-- `oo_organ_type_t`
pub data OrganType : Type 0 where
  cortex immune sensory vital : OrganType

-- `oo_organ_task_t`. An entry point is named by a number; `none` is the null pointer.
pub record Task : Type 0 where
  pub task_id : ℕ
  pub type : OrganType
  pub entry_point : Option ℕ
  pub current_cpu_share : ℕ
  pub is_sleeping : Bool
  pub next : Option ℕ

abbrev pub blank : Task
blank = record {
  task_id = 0;
  type = cortex;
  entry_point = none;
  current_cpu_share = 0;
  is_sleeping = false;
  next = none;
}

-- `oo_hormones_t`; the endorphin is never used.
pub record Hormones : Type 0 where
  pub adrenaline : ℕ
  pub melatonin : ℕ

abbrev pub max_organs : ℕ
max_organs = 16

abbrev pub cycle_duration : ℕ
cycle_duration = 10000

-- The static state of the file.
pub record Scheduler : Type 0 where
  pub organ_pool : List Task
  pub next_task_id : ℕ
  pub head_organ : Option ℕ
  pub current_state : HomeostasisState
  pub circadian_clock : ℕ
  pub body_hormones : Hormones

-- Before the first call.
abbrev pub boot : Scheduler
boot = record {
  organ_pool = replicate max_organs blank;
  next_task_id = 1;
  head_organ = none;
  current_state = relaxed;
  circadian_clock = 0;
  body_hormones = record { adrenaline = 0; melatonin = 0 };
}

-- `oo_scheduler_init`: the ids go on from where they were.
unfoldable pub init : Scheduler → Scheduler
init s = record s {
  head_organ = none;
  current_state = relaxed;
  organ_pool = map (λ (t : Task). record t { task_id = 0 }) s.organ_pool;
}

-- The loop of `oo_scheduler_register_organ`: the first slot from `i` on whose id is 0.
pub find_free : ℕ → List Task → Option ℕ
find_free i [] = none
find_free i (t ∷ ts) = if t.task_id == 0 then some i else find_free (i + 1) ts

abbrev pub default_share : OrganType → ℕ
default_share vital = 100
default_share _ = 10

abbrev pub fill_slot : Scheduler → OrganType → Option ℕ → ℕ → Scheduler
fill_slot s type entry i = record s {
  next_task_id = u8 (s.next_task_id + 1);
  organ_pool = set s.organ_pool i (record {
    task_id = s.next_task_id;
    type = type;
    entry_point = entry;
    current_cpu_share = default_share type;
    is_sleeping = false;
    next = s.head_organ;
  });
  head_organ = some i;
}

-- `oo_scheduler_register_organ`; a full pool is left as it is.
unfoldable pub register_organ : Scheduler → OrganType → Option ℕ → Scheduler
register_organ s type entry = elim (find_free 0 s.organ_pool) [
  | none ↦ s
  | some i ↦ fill_slot s type entry i
]

-- A `while` along the `next` pointers that changes each task by `f`, which leaves `next` alone.
pub walk : ℕ → (Task → Task) → Option ℕ → List Task → Option (List Task)
walk fuel f none pool = some pool
walk zero f (some i) pool = none
walk (suc fuel) f (some i) pool =
    let t = get_or pool i blank in walk fuel f t.next (set pool i (f t))

abbrev is_cortex : OrganType → Bool
is_cortex cortex = true
is_cortex _ = false

abbrev is_immune : OrganType → Bool
is_immune immune = true
is_immune _ = false

-- The share of a task whose type is the cortex or the immune system, and of any other.
abbrev shares : OrganType → ℕ → ℕ → ℕ → ℕ
shares type c i other = if is_cortex type then c else (if is_immune type then i else other)

-- The switch of `oo_scheduler_set_state`.
unfoldable pub reallocate : HomeostasisState → Task → Task
reallocate relaxed t = record t {
  current_cpu_share = shares t.type 80 10 t.current_cpu_share;
  is_sleeping = false;
}
reallocate vigilant t = record t { current_cpu_share = shares t.type 50 40 t.current_cpu_share }
reallocate combat t = record t { current_cpu_share = shares t.type 5 90 t.current_cpu_share }
reallocate survival t = record t {
  current_cpu_share = shares t.type t.current_cpu_share 95 t.current_cpu_share;
  is_sleeping = if is_cortex t.type then true else t.is_sleeping;
}

abbrev pub state_code : HomeostasisState → ℕ
state_code relaxed = 0
state_code vigilant = 1
state_code combat = 2
state_code survival = 3

-- `oo_scheduler_set_state`
unfoldable pub set_state : ℕ → Scheduler → HomeostasisState → Option Scheduler
set_state fuel s new_state =
    if state_code s.current_state == state_code new_state
    then some s
    else elim (walk fuel (reallocate new_state) s.head_organ s.organ_pool) [
      | none ↦ none
      | some pool ↦ some (record s { current_state = new_state; organ_pool = pool })
    ]

-- The two ways of the day: what `oo_scheduler_heartbeat` does at the end of a cycle.
abbrev pub set_hormones : ℕ → ℕ → Scheduler → Scheduler
set_hormones melatonin adrenaline s = record s {
  body_hormones = record { adrenaline = adrenaline; melatonin = melatonin };
}

unfoldable pub circadian : ℕ → Scheduler → Option Scheduler
circadian fuel s =
    if s.circadian_clock % cycle_duration == 0
    then elim s.current_state [
      | relaxed ↦ Option.map (set_hormones 0 50) (set_state fuel s vigilant)
      | vigilant ↦ Option.map (set_hormones 200 0) (set_state fuel s relaxed)
      | _ ↦ some s
    ]
    else some s

-- The hormonal modulation of one task.
unfoldable pub modulate : Hormones → Task → Task
modulate h t = record t {
  current_cpu_share = if is_immune t.type && ltb 150 h.adrenaline then 90 else t.current_cpu_share;
  is_sleeping = if is_cortex t.type && ltb 150 h.melatonin then true else t.is_sleeping;
}

-- The execution loop: the entry points that are called, in order.
pub beat : ℕ → Option ℕ → List Task → Option (List ℕ)
beat fuel none pool = some []
beat zero (some i) pool = none
beat (suc fuel) (some i) pool =
    let t = get_or pool i blank in
    elim (beat fuel t.next pool) [
      | none ↦ none
      | some rest ↦ some (
          if not t.is_sleeping && ltb 0 t.current_cpu_share
          then elim t.entry_point [ none ↦ rest | some e ↦ e ∷ rest ]
          else rest)
    ]

-- The scheduler after a heartbeat, once the bus has been read: rhythm, modulation, execution.
unfoldable pub pulse : ℕ → Scheduler → Option (Scheduler × List ℕ)
pulse fuel s = elim (circadian fuel (record s { circadian_clock = u64 (s.circadian_clock + 1) })) [
  | none ↦ none
  | some s₁ ↦ elim (walk fuel (modulate s₁.body_hormones) s₁.head_organ s₁.organ_pool) [
    | none ↦ none
    | some pool ↦ elim (beat fuel s₁.head_organ pool) [
      | none ↦ none
      | some called ↦ some (record s₁ { organ_pool = pool }, called)
    ]
  ]
]

-- `oo_scheduler_heartbeat`: the globules read from the bus are dropped. The entry points run outside
-- the model.
unfoldable pub heartbeat : ℕ → Scheduler → Bus → Option (Scheduler × Bus × List ℕ)
heartbeat fuel s b = elim (absorb fuel b 3 4) [
  | none ↦ none
  | some (b', inbox) ↦ elim (pulse fuel s) [
    | none ↦ none
    | some (s', called) ↦ some (s', b', called)
  ]
]
