-- ===== src/Bus/Limits.antt =====
-- Where the ring does not keep its promise: a forced eviction, and a capacity that shrinks past the
-- write position.
use operating_organism.Prelude.{
  ◌==◌, if◌then◌else◌, get_or, get_or-map, ℕ, zero, suc, ◌-◌, ◌≤◌, ◌<◌, ◌≡◌, refl, true, false,
  none, List, [], arith,
}
use operating_organism.Bus.{
  Globule, max_organs, Bus, is_priority, next_index, evict, pump, is_for, absorb_loop, absorb,
}
use operating_organism.Bus.Invariant.{IsValid}
use operating_organism.Bus.Pump.{is_full}
use operating_organism.Bus.Absorb.{InRing, gap, next_inner, next_wrap}

-- Once the capacity has shrunk to the write position or below, an organ that reads inside the ring
-- and for which the ring holds nothing never returns from `absorb`: no number of rounds is enough.
module _ (b : Bus) (organ : ℕ) (v : IsValid b) (shrunk : b.current_capacity ≤ b.heart_systole)
    (nothing : (i : ℕ) → InRing b i → is_for organ (b.blood_stream i) ≡ false) where
  absorb_loop_diverges :
      (fuel h room : ℕ) (out : List Globule)
      → InRing b h
      → 0 < room
      → absorb_loop fuel b organ h room out ≡ none
  unfolding absorb_loop
  absorb_loop_diverges zero h room out r p = refl
  absorb_loop_diverges (suc fuel) h room out r p =
      ground (
        arith,
        nothing h r,
        absorb_loop_diverges fuel (next_index b h) room out (omega (arith, v)) p,
      )

-- Once the capacity has shrunk to the write position or below, a call of `absorb` with room by an
-- organ that reads inside the ring, and for which the ring holds nothing, never returns: no number
-- of rounds is enough.
absorb_diverges :
    (b : Bus) (organ m fuel : ℕ)
    → IsValid b
    → b.current_capacity ≤ b.heart_systole
    → ((i : ℕ) → InRing b i → is_for organ (b.blood_stream i) ≡ false)
    → organ < max_organs
    → InRing b (get_or b.organ_read_heads organ 0)
    → 0 < m
    → absorb fuel b organ m ≡ none
unfolding absorb
absorb_diverges b organ m fuel v shrunk nothing o r p = ground (
  arith,
  absorb_loop_diverges b organ v shrunk nothing fuel (get_or b.organ_read_heads organ 0) m [] r p,
)

-- What a forced eviction does to the read positions and to the write position.
module _ (b : Bus) (g : Globule) (full : is_full b ≡ true) (p : is_priority g.type ≡ true) where
  heads-pump : (pump b g).0.organ_read_heads ≡ (evict b).organ_read_heads
  unfolding pump
  heads-pump = ground arith

  systole-pump : (pump b g).0.heart_systole ≡ b.heart_diastole
  unfolding pump
  systole-pump = ground arith

-- When a full ring takes a priority globule, an organ that stood at the oldest globule, with the
-- whole ring still to read, has caught up: its read position is not moved, and is now the write
-- position, with nothing to come.
pump_forgets :
    (b : Bus) (g : Globule) (organ : ℕ)
    → IsValid b
    → InRing b b.heart_systole
    → is_full b ≡ true
    → is_priority g.type ≡ true
    → organ < max_organs
    → get_or b.organ_read_heads organ 0 ≡ b.heart_diastole
    → (gap b (get_or b.organ_read_heads organ 0) ≡ b.current_capacity - 1)
      × (get_or (pump b g).0.organ_read_heads organ 0 ≡ b.heart_diastole)
      × (gap (pump b g).0 (get_or (pump b g).0.organ_read_heads organ 0) ≡ 0)
pump_forgets b g organ v s full p o h = ground (
  arith,
  heads-pump b g full p,
  systole-pump b g full p,
  next_inner b organ v s b.heart_systole,
  next_wrap b organ v s b.heart_systole,
  get_or-map (λ h. if h == b.heart_systole then next_index b b.heart_diastole else h)
      b.organ_read_heads organ 0 (omega (arith, v)),
)
