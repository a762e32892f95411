-- ===== src/Vital/Consciousness/Path.antt =====
-- The history of consciousness is a path through the matrix that ends in the state at hand.
use operating_organism.Prelude.{
  ltb, if◌then◌else◌, Bool-cases, length, get_or, u32, u64, sub_u32, ℕ, zero, suc, ◌+◌, ◌-◌, ◌%◌,
  ◌≤◌, ◌<◌, min, ◌≡◌, refl, sym, ap, ◌∙◌, ◌≢◌, inl, inr, Bool, true, false, List, [], ◌∷◌, arith,
}
use operating_organism.Vital.Consciousness.{
  State, void, embryonic, dormant, dreaming, aware, focused, alert, survival, transcend, is_legal,
  Reason, init_complete, idle_timeout, dream_complete, alert_resolved, TransitionEvent,
  history_size, organ_vital, Mind, enter, transition, awaken, copy, get_history, elapse, tick,
}

abbrev place : Mind → ℕ → ℕ
place m i = (m.history_head + 63 - i) % history_size

-- The ring holds the front of `log`, the list of all transitions, the latest first.
pub record Remembers (m : Mind) (log : List TransitionEvent) : Type 0 where
  pub bounded : m.history_head < history_size
  pub counted : m.history_count ≡ min history_size (length log)
  pub held :
      (i : ℕ) (d : TransitionEvent) → i < m.history_count → m.history (place m i) ≡ get_or log i d

-- Transitions that are legal, each from where the one before it led, and the latest to `s`.
abbrev pub Linked : State → List TransitionEvent → Type 0
Linked s [] = s ≡ embryonic
Linked s (e ∷ es) = (e.to ≡ s) × (is_legal e.from e.to ≡ true) × Linked e.from es

module _ (m : Mind) (target : State) (organ : ℕ) (reason : Reason) where
  abbrev event : TransitionEvent
  event = record {
    from = m.current_state;
    to = target;
    timestamp = m.total_cycles;
    trigger_organ = organ;
    reason = reason;
  }

  enter-Remembers :
      (log : List TransitionEvent)
      → Remembers m log
      → Remembers (enter m target organ reason) (event ∷ log)
  enter-Remembers log v = record {
    bounded = omega arith;
    counted = ground (arith, v.counted);
    held = held';
  }
    where
      held' :
          (i : ℕ) (d : TransitionEvent)
          → i < (enter m target organ reason).history_count
          → (enter m target organ reason).history (place (enter m target organ reason) i)
            ≡ get_or (event ∷ log) i d
      held' zero d h =
          let at : place (enter m target organ reason) 0 ≡ m.history_head =
            omega (arith, v.bounded) in
          ground (arith, at)
      held' (suc i) d h =
          let room : i < 63 = ground (arith, v.counted) in
          let at : place (enter m target organ reason) (suc i) ≡ place m i =
            omega (arith, v.bounded, room) in
          let apart : place m i ≢ m.history_head = (λ e. omega (arith, v.bounded, room)) in
          let old : m.history (place m i) ≡ get_or log i d = v.held i d (ground arith) in
          ground (arith, at, apart, old)

-- What is asked of a mind: a transition, or a tick.
pub data Input : Type 0 where
  ask : State → ℕ → Reason → Input
  beat : Input

abbrev step : Mind → Input → Mind
step m (ask target organ reason) = (transition m target organ reason).0
step m beat = tick m

-- The mind after these inputs, the latest first.
unfoldable pub run : Mind → List Input → Mind
run m [] = m
run m (x ∷ xs) = step (run m xs) x

-- What is to be shown of a mind.
pub record Recalls (m : Mind) : Type 0 where
  pub log : List TransitionEvent
  pub remembers : Remembers m log
  pub linked : Linked m.current_state log

transition-Recalls :
    (m : Mind) (target : State) (organ : ℕ) (reason : Reason)
    → Recalls m
    → Recalls (transition m target organ reason).0
unfolding transition
transition-Recalls m target organ reason r = elim (Bool-cases (is_legal m.current_state target)) [
  | inl legal ↦
      rw (transition, legal)
        (record {
          log = event m target organ reason ∷ r.log;
          remembers = enter-Remembers m target organ reason r.log r.remembers;
          linked = (refl, legal, r.linked);
        })
  | inr illegal ↦ rw (transition, illegal) r
]

older : (m : Mind) (t : ℕ) → Recalls m → Recalls (record m { total_cycles = t })
older m t r = record {
  log = r.log;
  remembers = record {
    bounded = r.remembers.bounded;
    counted = r.remembers.counted;
    held = r.remembers.held;
  };
  linked = r.linked;
}

if-Recalls : (b : Bool) (m m' : Mind) → Recalls m → Recalls m' → Recalls (if b then m else m')
if-Recalls true m m' r r' = r
if-Recalls false m m' r r' = r'

elapse-Recalls : (s : State) (time : ℕ) (m : Mind) → Recalls m → Recalls (elapse s time m)
elapse-Recalls aware time m r =
    if-Recalls (ltb 50000 time) (transition m dreaming organ_vital idle_timeout).0 m
      (transition-Recalls m dreaming organ_vital idle_timeout r) r
elapse-Recalls dreaming time m r =
    if-Recalls (ltb 10000 time) (transition m aware organ_vital dream_complete).0 m
      (transition-Recalls m aware organ_vital dream_complete r) r
elapse-Recalls alert time m r =
    if-Recalls (ltb 5000 time) (transition m focused organ_vital alert_resolved).0 m
      (transition-Recalls m focused organ_vital alert_resolved r) r
elapse-Recalls void time m r = r
elapse-Recalls embryonic time m r = r
elapse-Recalls dormant time m r = r
elapse-Recalls focused time m r = r
elapse-Recalls survival time m r = r
elapse-Recalls transcend time m r = r

tick-Recalls : (m : Mind) → Recalls m → Recalls (tick m)
unfolding tick
tick-Recalls m r = elapse-Recalls m.current_state _ _ (older m (u64 (m.total_cycles + 1)) r)

run-Recalls : (m : Mind) (xs : List Input) → Recalls m → Recalls (run m xs)
unfolding run
run-Recalls m [] r = r
run-Recalls m (ask target organ reason ∷ xs) r =
    transition-Recalls (run m xs) target organ reason (run-Recalls m xs r)
run-Recalls m (beat ∷ xs) r = tick-Recalls (run m xs) (run-Recalls m xs r)

-- A mind of which nothing is recorded.
abbrev IsBlank : Mind → Type 0
IsBlank m = (m.history_head ≡ 0) × (m.history_count ≡ 0)

awaken-Recalls : (m : Mind) → IsBlank m → Recalls (awaken m)
unfolding awaken
awaken-Recalls m (h, c) =
    transition-Recalls (record m { current_state = embryonic; state_entry_cycle = 0 }) aware
      organ_vital init_complete
      (record {
        log = [];
        remembers = record {
          bounded = omega (arith, h);
          counted = c;
          held = λ i d k. absurd (omega (arith, c, k));
        };
        linked = refl;
      })

copy_lem :
    (n i count k : ℕ) (m : Mind) (d : TransitionEvent)
    → k < n
    → get_or (copy n i count m) k d
      ≡ m.history (u32 (sub_u32 (m.history_head + history_size) count + (i + k)) % history_size)
unfolding copy
copy_lem zero i count k m d h = absurd (omega arith)
copy_lem (suc n) i count zero m d h = ap m.history (omega arith)
copy_lem (suc n) i count (suc k) m d h =
    copy_lem n (i + 1) count k m d (omega arith) ∙ ap m.history (omega arith)

length-copy : (n i count : ℕ) (m : Mind) → length (copy n i count m) ≡ n
unfolding copy
length-copy zero i count m = refl
length-copy (suc n) i count m = ground (arith, length-copy n (i + 1) count m)

get_history_lem :
    (m : Mind) (log : List TransitionEvent) (max : ℕ)
    → Remembers m log
    → (length (get_history m max) ≡ min max (min history_size (length log)))
      × ((k : ℕ) (d : TransitionEvent)
          → k < length (get_history m max)
          → get_or (get_history m max) k d ≡ get_or log (length (get_history m max) - 1 - k) d)
unfolding get_history
get_history_lem m log max v =
    let count = if ltb m.history_count max then m.history_count else max in
    let size : length (get_history m max) ≡ count = length-copy count 0 count m in
    let few : count ≤ m.history_count = ground arith in
    let all : m.history_count ≤ history_size = omega (arith, v.counted) in
    (
      size ∙ ground (arith, v.counted),
      λ k d h.
          let inside : k < count = omega (arith, size, h) in
          let at : u32 (sub_u32 (m.history_head + history_size) count + (0 + k)) % history_size
              ≡ place m (count - 1 - k) =
            omega (arith, v.bounded, few, all, inside) in
          copy_lem count 0 count k m d inside
          ∙ ap m.history at
          ∙ v.held (count - 1 - k) d (omega (arith, few, inside))
          ∙ ap (λ n. get_or log (n - 1 - k) d) (sym size),
    )

-- From the first awakening on, whatever is asked of the mind and however long it beats: there is a
-- list of transitions, each allowed by the matrix and each from the state that the one before it
-- led to, from EMBRYONIC to the state at hand. The history answers the latest of them, `max` or 64
-- at most, the oldest of these first.
pub history-Linked :
    (m₀ : Mind) (xs : List Input) (max : ℕ)
    → IsBlank m₀
    → let m = run (awaken m₀) xs in
      (log : List TransitionEvent) × Linked m.current_state log
      × (length (get_history m max) ≡ min max (min history_size (length log)))
      × ((k : ℕ) (d : TransitionEvent)
          → k < length (get_history m max)
          → get_or (get_history m max) k d ≡ get_or log (length (get_history m max) - 1 - k) d)
history-Linked m₀ xs max blank =
    let r = run-Recalls (awaken m₀) xs (awaken-Recalls m₀ blank) in
    let (size, each) = get_history_lem (run (awaken m₀) xs) r.log max r.remembers in
    (r.log, r.linked, size, each)
