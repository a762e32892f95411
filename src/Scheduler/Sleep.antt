-- ===== src/Scheduler/Sleep.antt =====
-- The circadian rhythm and the cortex: once asleep for a night it is never woken by the clock.
use operating_organism.Prelude.{
  length, u64, ℕ, ◌+◌, ◌%◌, ◌≤◌, ◌<◌, ◌≡◌, refl, ◌⊎◌, inl, inr, true, some, List, arith,
}
use operating_organism.Scheduler.{
  HomeostasisState, relaxed, vigilant, combat, survival, cortex, Task, Hormones, cycle_duration,
  Scheduler, reallocate, set_hormones, circadian, modulate, pulse,
}
use operating_organism.Scheduler.Walk.{
  map_first, get-map_first, walk-Chained, running, beat-Chained,
}
use operating_organism.Scheduler.Register.{slot, IsValid}
use operating_organism.Scheduler.Shift.{map_first-IsValid, shifted, set_state-ne, shifted-IsValid}
use native.Mathlib.Decide.{ℕ_discrete}

-- Every registered cortex task sleeps.
abbrev CortexSleeps : ℕ → Scheduler → Type 0
CortexSleeps n s = (i : ℕ) → i < n → (slot s i).type ≡ cortex → (slot s i).is_sleeping ≡ true

-- It is day, or a night with much melatonin.
abbrev DayOrNight : Scheduler → Type 0
DayOrNight s =
    (s.current_state ≡ vigilant) ⊎ ((s.current_state ≡ relaxed) × (150 < s.body_hormones.melatonin))

pub record Asleep (n : ℕ) (s : Scheduler) : Type 0 where
  pub valid : IsValid n s
  pub time : DayOrNight s
  pub cortex_sleeps : CortexSleeps n s

keep-modulate :
    (h : Hormones) (t : Task)
    → ((modulate h t).task_id ≡ t.task_id) × ((modulate h t).next ≡ t.next)
unfolding modulate
keep-modulate h t = (refl, refl)

-- A modulation puts no cortex to wake, and every cortex to sleep if there is much melatonin.
sleep-modulate :
    (h : Hormones) (t : Task)
    → ((modulate h t).type ≡ t.type)
      × (t.is_sleeping ≡ true → (modulate h t).is_sleeping ≡ true)
      × (150 < h.melatonin → t.type ≡ cortex → (modulate h t).is_sleeping ≡ true)
unfolding modulate
sleep-modulate h t = ground arith

-- The scheduler after the modulation.
abbrev modulated : ℕ → Scheduler → Scheduler
modulated n s = record s { organ_pool = map_first n (modulate s.body_hormones) s.organ_pool }

-- The pulse of a valid scheduler, once the rhythm has made `s₁` of it.
pulse-circadian :
    (n fuel : ℕ) (s s₁ : Scheduler)
    → n ≤ fuel
    → circadian fuel (record s { circadian_clock = u64 (s.circadian_clock + 1) }) ≡ some s₁
    → IsValid n s₁
    → (called : List ℕ) × (pulse fuel s ≡ some (modulated n s₁, called))
      × IsValid n (modulated n s₁)
unfolding pulse
pulse-circadian n fuel s s₁ le e v =
    let w : IsValid n (modulated n s₁) =
      map_first-IsValid n s₁ (modulated n s₁) (modulate s₁.body_hormones) v
        (keep-modulate s₁.body_hormones) refl refl refl in
    let size : n ≤ length s₁.organ_pool = omega (arith, v) in
    (
      running n (modulated n s₁).organ_pool,
      ground (
        arith,
        v.head,
        walk-Chained n fuel (modulate s₁.body_hormones) s₁.organ_pool le size v.chained,
        beat-Chained n fuel (modulated n s₁).organ_pool le w.chained,
      ),
      w,
    )

-- Clock and hormones are no part of the validity.
IsValid-clock :
    (n : ℕ) (s : Scheduler) (h : Hormones) (c : ℕ)
    → IsValid n s
    → IsValid n (record s { circadian_clock = c; body_hormones = h })
IsValid-clock n s h c v = record {
  size = v.size;
  count = v.count;
  head = v.head;
  chained = v.chained;
  used = v.used;
  free = v.free;
  next_id = v.next_id;
}

-- The modulation keeps the cortex asleep, or puts it to sleep.
sleeps-modulated :
    (n : ℕ) (s : Scheduler)
    → IsValid n s
    → CortexSleeps n s ⊎ (150 < s.body_hormones.melatonin)
    → CortexSleeps n (modulated n s)
sleeps-modulated n s v (inl c) i l ty = ground (
  arith,
  get-map_first n i (modulate s.body_hormones) s.organ_pool (omega (arith, v)),
  sleep-modulate s.body_hormones (slot s i),
  c i l,
)
sleeps-modulated n s v (inr m) i l ty = ground (
  arith,
  get-map_first n i (modulate s.body_hormones) s.organ_pool (omega (arith, v)),
  sleep-modulate s.body_hormones (slot s i),
)

-- The rhythm ends and keeps the scheduler valid; and where the cortex slept, by day or in a night
-- with much melatonin, it sleeps on, or there is much melatonin.
abbrev Rhythm : ℕ → ℕ → Scheduler → Type 0
Rhythm n fuel s =
    (s₁ : Scheduler) × (circadian fuel s ≡ some s₁)
    × IsValid n s₁
    × (DayOrNight s
        → CortexSleeps n s
        → DayOrNight s₁ × (CortexSleeps n s₁ ⊎ (150 < s₁.body_hormones.melatonin)))
    × (s.current_state ≡ vigilant
        → s.circadian_clock % cycle_duration ≡ 0
        → DayOrNight s₁ × (150 < s₁.body_hormones.melatonin))

asleep-vigilant : (t : Task) → t.is_sleeping ≡ true → (reallocate vigilant t).is_sleeping ≡ true
unfolding reallocate
asleep-vigilant t h = h

type-vigilant : (t : Task) → (reallocate vigilant t).type ≡ t.type
unfolding reallocate
type-vigilant t = refl

module _ (n fuel : ℕ) (s : Scheduler) (le : n ≤ fuel) (v : IsValid n s) where
  -- The rhythm, in the cases of the state in which the cycle ends.
  Rhythm-end :
      (st : HomeostasisState)
      → s.current_state ≡ st
      → (s.circadian_clock % cycle_duration) ≡ 0
      → Rhythm n fuel s
  unfolding circadian
  Rhythm-end relaxed e z = (
    set_hormones 0 50 (shifted n s vigilant),
    ground (arith, set_state-ne n fuel s vigilant v le (ground arith)),
    IsValid-clock n (shifted n s vigilant) _ _ (shifted-IsValid n s vigilant v),
    (λ d c. (
      inl refl,
      inl (λ i l ty. ground (
        arith,
        get-map_first n i (reallocate vigilant) s.organ_pool (omega (arith, v)),
        asleep-vigilant (slot s i),
        type-vigilant (slot s i),
        c i l,
      )),
    )),
    λ d _. cc,
  )
  Rhythm-end vigilant e z = (
    set_hormones 200 0 (shifted n s relaxed),
    ground (arith, set_state-ne n fuel s relaxed v le (ground arith)),
    IsValid-clock n (shifted n s relaxed) _ _ (shifted-IsValid n s relaxed v),
    (λ d c. (inr (refl, omega arith), inr (omega arith))),
    λ _ _. (inr (refl, omega arith), omega arith),
  )
  Rhythm-end combat e z = (s, ground arith, v, (λ d c. (d, inl c)), λ d _. cc)
  Rhythm-end survival e z = (s, ground arith, v, (λ d c. (d, inl c)), λ d _. cc)

  rhythm : Rhythm n fuel s
  unfolding circadian
  rhythm = elim (ℕ_discrete (s.circadian_clock % cycle_duration) 0) [
    | yes z ↦ Rhythm-end s.current_state refl z
    | no nz ↦ (s, ground arith, v, (λ d c. (d, inl c)), λ _ z. absurd (nz z))
  ]

-- A pulse of a valid scheduler ends, within as many rounds as organs are registered, and leaves it
-- valid. And once every cortex task sleeps, by day or in a night with much melatonin, they all
-- sleep on after it, and so after any number of pulses: the change from night to day included. They
-- are in that state after the first pulse that ends a day.
pub pulse-Asleep :
    (n fuel : ℕ) (s : Scheduler)
    → n ≤ fuel
    → IsValid n s
    → (s' : Scheduler) × (called : List ℕ) × (pulse fuel s ≡ some (s', called))
      × IsValid n s'
      × (Asleep n s → Asleep n s')
      × (s.current_state ≡ vigilant
          → u64 (s.circadian_clock + 1) % cycle_duration ≡ 0
          → Asleep n s')
pulse-Asleep n fuel s le v =
    let ticked : Scheduler = record s { circadian_clock = u64 (s.circadian_clock + 1) } in
    let (s₁, e, v₁, on, dusk) = rhythm n fuel ticked le (IsValid-clock n s _ _ v) in
    let (called, p, w) = pulse-circadian n fuel s s₁ le e v₁ in
    (
      modulated n s₁,
      called,
      p,
      w,
      (λ a. record {
        valid = w;
        time = (on a.time a.cortex_sleeps).0;
        cortex_sleeps = sleeps-modulated n s₁ v₁ (on a.time a.cortex_sleeps).1;
      }),
      λ d z. record {
        valid = w;
        time = (dusk d z).0;
        cortex_sleeps = sleeps-modulated n s₁ v₁ (inr (dusk d z).1);
      },
    )
