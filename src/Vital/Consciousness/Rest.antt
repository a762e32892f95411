-- ===== src/Vital/Consciousness/Rest.antt =====
-- How long the states with a time limit last.
use operating_organism.Prelude.{
  ltb, u64, sub_u64, ℕ, zero, suc, ◌+◌, ◌-◌, ◌^◌, ◌≤◌, ◌<◌, ◌≡◌, refl, ap, ◌∙◌, true, false, arith,
}
use operating_organism.Vital.Consciousness.{dreaming, aware, Mind, transition, tick}

-- `n` ticks.
pub ticks : ℕ → Mind → Mind
ticks zero m = m
ticks (suc n) m = tick (ticks n m)

module _ (m : Mind) (asleep : m.current_state ≡ dreaming) (e : m.state_entry_cycle ≤ m.total_cycles)
    (b : m.total_cycles + 1 < 2 ^ 64) where
  time_eq :
      sub_u64 (u64 (m.total_cycles + 1)) m.state_entry_cycle
      ≡ m.total_cycles + 1 - m.state_entry_cycle
  time_eq = omega arith

  clock_eq : u64 (m.total_cycles + 1) ≡ m.total_cycles + 1
  clock_eq = omega arith

  tick_dreams :
      m.total_cycles + 1 - m.state_entry_cycle ≤ 10000
      → tick m ≡ record m { total_cycles = m.total_cycles + 1 }
  unfolding tick
  tick_dreams h =
      let early : ltb 10000 (m.total_cycles + 1 - m.state_entry_cycle) ≡ false =
        ground (arith, h) in
      rw (tick, asleep, time_eq, early, clock_eq) refl

  tick_wakes :
      10000 < m.total_cycles + 1 - m.state_entry_cycle
      → ((tick m).current_state ≡ aware) × ((tick m).state_entry_cycle ≡ m.total_cycles + 1)
  unfolding tick transition
  tick_wakes h =
      let late : ltb 10000 (m.total_cycles + 1 - m.state_entry_cycle) ≡ true = ground (arith, h) in
      rw (tick, asleep, time_eq, late, clock_eq) (refl, refl)

dream_lasts :
    (n : ℕ) (m : Mind)
    → m.current_state ≡ dreaming
    → m.state_entry_cycle ≤ m.total_cycles
    → m.total_cycles + n < 2 ^ 64
    → m.total_cycles + n - m.state_entry_cycle ≤ 10000
    → ticks n m ≡ record m { total_cycles = m.total_cycles + n }
unfolding ticks
dream_lasts zero m s e b h =
    ap (λ t. record m { total_cycles = t }) {x = m.total_cycles} {y = m.total_cycles + 0}
      (omega arith)
dream_lasts (suc n) m s e b h = rw (dream_lasts n m s e (omega arith) (omega arith)) (
    tick_dreams (record m { total_cycles = m.total_cycles + n }) s (omega arith) (omega arith)
      (omega arith)
    ∙ ap (λ t. record m { total_cycles = t }) {x = m.total_cycles + n + 1}
        {y = m.total_cycles + suc n} (omega arith))

-- A dream that began at cycle `e` goes on through cycle `e + 10000`, while nothing but the clock
-- moves, and at cycle `e + 10001` the mind is AWARE.
dream_ends :
    (n : ℕ) (m : Mind)
    → m.current_state ≡ dreaming
    → m.state_entry_cycle ≤ m.total_cycles
    → m.total_cycles + n < 2 ^ 64
    → let now = m.total_cycles + n in
      (now ≤ m.state_entry_cycle + 10000 → ticks n m ≡ record m { total_cycles = now })
      × (now ≡ m.state_entry_cycle + 10001
          → m.total_cycles < now
          → ((ticks n m).current_state ≡ aware) × ((ticks n m).state_entry_cycle ≡ now))
unfolding ticks
dream_ends zero m s e b = (λ h. dream_lasts zero m s e b (omega arith), λ h k. absurd (omega arith))
dream_ends (suc n) m s e b = (
  λ h. dream_lasts (suc n) m s e b (omega arith),
  λ h k. rw (dream_lasts n m s e (omega arith) (omega arith)) (
      let (woke, at) =
        tick_wakes (record m { total_cycles = m.total_cycles + n }) s (omega arith) (omega arith)
          (omega arith) in
      (woke, at ∙ omega arith)),
)
