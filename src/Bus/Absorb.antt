-- ===== src/Bus/Absorb.antt =====
-- `united_bus_absorb` against a queue: an organ takes, in order, the globules that are for it.
use mathlib.Core.List.{append-nil, append_assoc}
use operating_organism.Prelude.{
  ℕ, zero, suc, ◌+◌, ◌-◌, ◌<◌, ◌≡◌, refl, false, some, List, [], ◌∷◌, ◌++◌, arith, leb, ◌==◌,
  if◌then◌else◌, get_or, set, take, drop, select, Bool-cases, inl, inr, ring_next, ring_wrap,
}
use operating_organism.Bus.{Globule, Bus, next_index, absorb_loop, absorb, is_for, max_organs}
use operating_organism.Bus.Invariant.{IsValid}

-- The read position is inside the ring as it is sized now.
abbrev pub InRing : Bus → ℕ → Type 0
InRing b h = h < b.current_capacity

-- The number of globules from position `h` up to the write position.
abbrev pub gap : Bus → ℕ → ℕ
gap b h =
    if leb h b.heart_systole then b.heart_systole - h else b.heart_systole + b.current_capacity - h

-- The `n` globules from position `h` on.
abbrev pub window : Bus → ℕ → ℕ → List Globule
window b h zero = []
window b h (suc n) = b.blood_stream h ∷ window b (next_index b h) n

-- What is still to come for an organ that reads at `h`.
abbrev pub pending : Bus → ℕ → ℕ → List Globule
pending b organ h = select (is_for organ) (window b h (gap b h))

module _ (b : Bus) (organ : ℕ) (v : IsValid b) (s : InRing b b.heart_systole) where
  pub next_in : (h : ℕ) → InRing b (next_index b h)
  next_in h = omega (arith, v)

  pub next_inner : (h : ℕ) → h + 1 < b.current_capacity → next_index b h ≡ h + 1
  next_inner h r = ring_next h b.current_capacity (omega (arith, v)) r

  pub next_wrap : (h : ℕ) → h + 1 ≡ b.current_capacity → next_index b h ≡ 0
  next_wrap h r = ring_wrap h b.current_capacity (omega (arith, v)) r

  pub gap_next : (h n : ℕ) → InRing b h → gap b h ≡ suc n → gap b (next_index b h) ≡ n
  gap_next h n r e = ground (arith, next_inner h, next_wrap h)

  pub gap-zero : (h : ℕ) → InRing b h → gap b h ≡ 0 → h ≡ b.heart_systole
  gap-zero h r e = ground arith

  pub gap-suc : (h n : ℕ) → gap b h ≡ suc n → (h == b.heart_systole) ≡ false
  gap-suc h n e = ground arith

  -- The loop started at `h` ends, after the globules of the window that are for the organ, or after
  -- as many as there is room for; what it leaves is what the organ reads next.
  absorb_loop_lem :
      (n fuel h room : ℕ) (out : List Globule)
      → n < fuel
      → InRing b h
      → gap b h ≡ n
      → (h' : ℕ) × (absorb_loop fuel b organ h room out
          ≡ some (h', out ++ take room (select (is_for organ) (window b h n))))
        × InRing b h'
        × (pending b organ h' ≡ drop room (select (is_for organ) (window b h n)))
  unfolding absorb_loop
  absorb_loop_lem n zero h room out lt r e = absurd (omega arith)
  absorb_loop_lem zero (suc fuel) h zero out lt r e =
      (h, ground (arith, gap-zero h r e, append-nil out), r, rw e)
  absorb_loop_lem zero (suc fuel) h (suc room) out lt r e =
      (h, ground (arith, gap-zero h r e, append-nil out), r, rw e)
  absorb_loop_lem (suc n) (suc fuel) h zero out lt r e =
      (h, ground (arith, append-nil out), r, rw e)
  absorb_loop_lem (suc n) (suc fuel) h (suc room) out lt r e =
      elim (Bool-cases (is_for organ (b.blood_stream h))) [
        | inl t ↦
            let (h', p, r', q) =
              absorb_loop_lem n fuel (next_index b h) room (out ++ (b.blood_stream h ∷ []))
                (omega arith) (next_in h) (gap_next h n r e) in
            (
              h',
              ground (
                arith,
                gap-suc h n e,
                append_assoc out (b.blood_stream h ∷ [])
                    (take room (select (is_for organ) (window b (next_index b h) n))),
              ),
              r',
              rw t q,
            )
        | inr t ↦
            let (h', p, r', q) =
              absorb_loop_lem n fuel (next_index b h) (suc room) out (omega arith) (next_in h)
                (gap_next h n r e) in
            (h', ground (arith, gap-suc h n e), r', rw t q)
      ]

-- On a valid bus that is sized beyond its write position and beyond the organ's read position, an
-- `absorb` by an organ of the body ends within as many rounds as the ring has places. It returns
-- the first `m` globules that are for the organ, in the order of the stream, and leaves exactly
-- the others for the organ's next call; nothing but this organ's read position changes. A bus
-- that has shrunk below one of the two positions is not covered.
pub absorb_lem :
    (b : Bus) (organ m : ℕ)
    → IsValid b
    → InRing b b.heart_systole
    → organ < max_organs
    → InRing b (get_or b.organ_read_heads organ 0)
    → let queue = pending b organ (get_or b.organ_read_heads organ 0) in
      (h' : ℕ) × (absorb (suc b.current_capacity) b organ m
        ≡ some (record b { organ_read_heads = set b.organ_read_heads organ h' }, take m queue))
      × InRing b h'
      × (pending b organ h' ≡ drop m queue)
unfolding absorb
absorb_lem b organ m v s o r =
    let h : ℕ = get_or b.organ_read_heads organ 0 in
    let (h', p, r', q) =
      absorb_loop_lem b organ v s (gap b h) (suc b.current_capacity) h m [] (ground arith) r refl in
    (h', ground arith, r', q)
