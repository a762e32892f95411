-- ===== src/Network/Breath.antt =====
-- Which frames get through.
use operating_organism.Prelude.{
  ltb, ◌==◌, u32, ℕ, ◌+◌, ◌≤◌, ◌<◌, ◌≡◌, refl, ◌≢◌, true, false, arith,
}
use operating_organism.Bus.{Bus, PumpResult, pumped, pump}
use operating_organism.Bus.Pump.{pump_result, pump_refused}
use operating_organism.Network.{Respiration, cell, is_pumped, inhale}

cell_result :
    (b : Bus) (frame size : ℕ)
    → (64 ≤ size → (pump b (cell frame size)).1 ≢ pumped)
      × (size < 64 → (pump b (cell frame size)).1 ≡ pumped)
cell_result b frame size = ground (arith, pump_result b (cell frame size))

not_pumped : (x : PumpResult) → x ≢ pumped → is_pumped x ≡ false
not_pumped x h = ground (arith, h)

-- A frame of 64 bytes or more never gets through: it counts as a pump and a drop, and changes
-- nothing else on the bus, be it full or empty, and the breath rate stays. For it is data for the
-- cortex from an organ that is not the senses, which the barrier holds back.
-- A shorter frame that is not empty always gets through, and counts as a breath.
inhale_lem :
    (r : Respiration) (b : Bus) (frame size : ℕ)
    → let (r', b') = inhale r b frame size in
      (64 ≤ size
        → (r' ≡ r)
          × (b' ≡ record b { total_pumps = u32 (b.total_pumps + 1); drops = u32 (b.drops + 1) }))
      × (0 < size
          → size < 64
          → ((pump b (cell frame size)).1 ≡ pumped)
            × (b' ≡ (pump b (cell frame size)).0)
            × (r'.breath_rate ≡ u32 (r.breath_rate + 1)))
unfolding inhale
inhale_lem r b frame size = (
  λ long.
      let is_long : ltb size 64 ≡ false = ground (arith, long) in
      let some_bytes : (size == 0) ≡ false = ground (arith, long) in
      let refused : (pump b (cell frame size)).1 ≢ pumped = (cell_result b frame size).0 long in
      rw (inhale, some_bytes)
        (
          rw (not_pumped (pump b (cell frame size)).1 refused) refl,
          pump_refused b (cell frame size) refused,
        ),
  λ full short.
      let is_short : ltb size 64 ≡ true = ground (arith, short) in
      let some_bytes : (size == 0) ≡ false = ground (arith, full) in
      let taken : (pump b (cell frame size)).1 ≡ pumped = (cell_result b frame size).1 short in
      rw (inhale, some_bytes) (taken, refl, rw taken refl),
)
