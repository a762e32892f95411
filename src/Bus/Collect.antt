-- ===== src/Bus/Collect.antt =====
-- `united_bus_gc`: which globules are given up.
use operating_organism.Prelude.{
  ltb, Bool-cases, All, ℕ, ◌≤◌, ◌≡◌, refl, inl, inr, List, [], ◌∷◌, arith,
}
use operating_organism.Bus.{Bus, distance, furthest, gc, get_health}
use operating_organism.Bus.Invariant.{furthest_of}

module _ (b : Bus) where
  -- The position that the loop ends with is as far behind as the one that it starts with.
  furthest_start : (m : ℕ) (hs : List ℕ) (k : ℕ) → furthest b m hs ≡ k → distance b m ≤ distance b k
  unfolding furthest
  furthest_start m [] k e = ground arith
  furthest_start m (h ∷ hs) k e = elim (Bool-cases (ltb (distance b m) (distance b h))) [
    | inl t ↦
        let le : distance b h ≤ distance b k = furthest_start h hs k (rw t at e) in ground arith
    | inr t ↦ furthest_start m hs k (rw t at e)
  ]

  -- ... and as each one that it sees.
  furthest-All :
      (m : ℕ) (hs : List ℕ) (k : ℕ)
      → furthest b m hs ≡ k
      → All (λ h. distance b h ≤ distance b k) hs
  unfolding furthest
  furthest-All m [] k e = tt
  furthest-All m (h ∷ hs) k e = elim (Bool-cases (ltb (distance b m) (distance b h))) [
    | inl t ↦
        let e' : furthest b h hs ≡ k = rw t at e in
        (furthest_start h hs k e', furthest-All h hs k e')
    | inr t ↦
        let e' : furthest b m hs ≡ k = rw t at e in
        let le : distance b m ≤ distance b k = furthest_start m hs k e' in
        (ground arith, furthest-All m hs k e')
  ]

-- After `gc` no reader has further to go than the oldest globule kept, so nothing that some organ
-- has still to read is given up; and the oldest kept is where the slowest reader stands, or the
-- write position: whatever holds of those holds of it. Only the oldest position changes.
gc_slowest :
    (b : Bus) (P : ℕ → Type 0)
    → P b.heart_systole
    → All P b.organ_read_heads
    → All (λ h. distance b h ≤ (get_health (gc b)).pending_globules) b.organ_read_heads
      × P (gc b).heart_diastole
      × (gc b ≡ record b { heart_diastole = (gc b).heart_diastole })
unfolding gc get_health
gc_slowest b P s h =
    (furthest-All b b.heart_systole b.organ_read_heads _ refl, furthest_of P b _ _ s h, refl)
