-- ===== src/Vital/Consciousness.antt =====
-- vital-baremetal/src/consciousness_fsm.c: the states of consciousness.
pub mod Path
pub mod Rest
use operating_organism.Prelude.{
  ltb, ◌==◌, if◌then◌else◌, not, get_or, u32, u64, sub_u32, sub_u64, ℕ, zero, suc, ◌+◌, ◌%◌, Bool,
  true, false, List, [], ◌∷◌,
}
use operating_organism.Bus.{GlobuleType, Bus, update, pump, signal}

pub data State : Type 0 where
  void embryonic dormant dreaming aware focused alert survival transcend : State

abbrev pub state_code : State → ℕ
state_code void = 0
state_code embryonic = 1
state_code dormant = 2
state_code dreaming = 3
state_code aware = 4
state_code focused = 5
state_code alert = 6
state_code survival = 7
state_code transcend = 8

-- `CONSCIOUSNESS_TRANSITION_MATRIX`
abbrev pub transition_matrix : List (List ℕ)
transition_matrix =
    (0 ∷ 1 ∷ 0 ∷ 0 ∷ 0 ∷ 0 ∷ 0 ∷ 0 ∷ 0 ∷ [])
    ∷ (0 ∷ 0 ∷ 1 ∷ 0 ∷ 1 ∷ 0 ∷ 0 ∷ 0 ∷ 0 ∷ [])
    ∷ (0 ∷ 0 ∷ 0 ∷ 1 ∷ 1 ∷ 0 ∷ 0 ∷ 0 ∷ 0 ∷ [])
    ∷ (0 ∷ 0 ∷ 1 ∷ 0 ∷ 1 ∷ 0 ∷ 0 ∷ 0 ∷ 1 ∷ [])
    ∷ (0 ∷ 0 ∷ 1 ∷ 1 ∷ 0 ∷ 1 ∷ 1 ∷ 0 ∷ 0 ∷ [])
    ∷ (0 ∷ 0 ∷ 0 ∷ 0 ∷ 1 ∷ 0 ∷ 1 ∷ 0 ∷ 1 ∷ [])
    ∷ (0 ∷ 0 ∷ 0 ∷ 0 ∷ 1 ∷ 1 ∷ 0 ∷ 1 ∷ 0 ∷ [])
    ∷ (1 ∷ 0 ∷ 0 ∷ 0 ∷ 0 ∷ 0 ∷ 1 ∷ 0 ∷ 0 ∷ [])
    ∷ (0 ∷ 0 ∷ 1 ∷ 1 ∷ 1 ∷ 1 ∷ 1 ∷ 1 ∷ 0 ∷ [])
    ∷ []

abbrev pub is_legal : State → State → Bool
is_legal from to =
    not (get_or (get_or transition_matrix (state_code from) []) (state_code to) 0 == 0)

-- The reasons that the code gives, and any other text.
pub data Reason : Type 0 where
  init_complete idle_timeout dream_complete alert_resolved acute_pain agony : Reason
  said : List ℕ → Reason

pub record TransitionEvent : Type 0 where
  pub from : State
  pub to : State
  pub timestamp : ℕ
  pub trigger_organ : ℕ
  pub reason : Reason

abbrev pub history_size : ℕ
history_size = 64

-- `ORGAN_TYPE_VITAL`
abbrev pub organ_vital : ℕ
organ_vital = 15

-- The statics of the component, and the bus.
pub record Mind : Type 0 where
  pub history : ℕ → TransitionEvent
  pub history_head : ℕ
  pub history_count : ℕ
  pub current_state : State
  pub state_entry_cycle : ℕ
  pub total_cycles : ℕ
  pub bus : Bus

-- The accepted part of `consciousness_transition`. The globule's payload is the address, here 0, of
-- the state, of 4 bytes.
abbrev pub enter : Mind → State → ℕ → Reason → Mind
enter m target organ reason = record m {
  history = update m.history m.history_head (record {
    from = m.current_state;
    to = target;
    timestamp = m.total_cycles;
    trigger_organ = organ;
    reason = reason;
  });
  history_head = u32 (m.history_head + 1) % history_size;
  history_count =
      if ltb m.history_count history_size then u32 (m.history_count + 1) else m.history_count;
  bus = (pump m.bus (signal GlobuleType.yellow organ_vital 4)).0;
  current_state = target;
  state_entry_cycle = m.total_cycles;
}

-- `consciousness_transition`: the new mind, and whether it answers 1.
unfoldable pub transition : Mind → State → ℕ → Reason → Mind × Bool
transition m target organ reason =
    if is_legal m.current_state target then (enter m target organ reason, true) else (m, false)

-- `consciousness_init`
unfoldable pub awaken : Mind → Mind
awaken m =
    (transition (record m { current_state = embryonic; state_entry_cycle = 0 }) aware organ_vital
      init_complete).0

-- The events that `consciousness_get_history` copies, from number `i` on, of `count`.
pub copy : ℕ → ℕ → ℕ → Mind → List TransitionEvent
copy zero i count m = []
copy (suc n) i count m =
    m.history (u32 (sub_u32 (m.history_head + history_size) count + i) % history_size)
    ∷ copy n (i + 1) count m

-- `consciousness_get_history`, for a `max` that is not negative.
unfoldable pub get_history : Mind → ℕ → List TransitionEvent
unfolding copy
get_history m max =
    let count = if ltb m.history_count max then m.history_count else max in copy count 0 count m

-- The switch of `consciousness_tick`, by the state and the time in it.
abbrev pub elapse : State → ℕ → Mind → Mind
elapse aware time m =
    if ltb 50000 time then (transition m dreaming organ_vital idle_timeout).0 else m
elapse dreaming time m =
    if ltb 10000 time then (transition m aware organ_vital dream_complete).0 else m
elapse alert time m =
    if ltb 5000 time then (transition m focused organ_vital alert_resolved).0 else m
elapse _ time m = m

-- `consciousness_tick`
unfoldable pub tick : Mind → Mind
tick m₀ =
    let m = record m₀ { total_cycles = u64 (m₀.total_cycles + 1) } in
    elapse m.current_state (sub_u64 m.total_cycles m.state_entry_cycle) m
