-- ===== src/Bus/Invariant.antt =====
-- Bounds of the bus: no index leaves the stream, and no modulus is zero.
use operating_organism.Prelude.{
  ℕ, suc, ◌≤◌, ◌<◌, ◌≡◌, refl, ◌∙◌, ◌-◌, zero, inl, inr, ltb, [], ◌∷◌, ◌++◌, Bool-cases,
  Option-cases, All-get_or, some, List, arith, length, length-set, length-map, get_or, All, All-set,
  All-map, All-replicate,
}
use operating_organism.Bus.{
  Globule, Bus, distance, boot, init, next_index, evict, admit, pump, absorb_loop, absorb, gc,
  furthest, blood_volume, base_capacity, max_organs,
}

abbrev IsIndex : ℕ → Type 0
IsIndex i = i < blood_volume

pub record IsValid (b : Bus) : Type 0 where
  pub cap_min : base_capacity ≤ b.current_capacity
  pub cap_max : b.current_capacity ≤ blood_volume
  pub systole_in : IsIndex b.heart_systole
  pub diastole_in : IsIndex b.heart_diastole
  pub heads_count : length b.organ_read_heads ≡ max_organs
  pub heads_in : All IsIndex b.organ_read_heads

pub boot-IsValid : (g : Globule) → IsValid (boot g)
boot-IsValid g = record {
  cap_min = omega arith;
  cap_max = omega arith;
  systole_in = omega arith;
  diastole_in = omega arith;
  heads_count = refl;
  heads_in = All-replicate IsIndex max_organs 0 (omega arith);
}

module _ {b : Bus} (v : IsValid b) where
  next_index_in : (i : ℕ) → IsIndex (next_index b i)
  next_index_in i = omega (arith, v)

  heads_evict : All IsIndex (evict b).organ_read_heads
  heads_evict =
      All-map IsIndex _ b.organ_read_heads (λ h p. ground (arith, next_index_in b.heart_diastole))
        v.heads_in

  evict-IsValid : IsValid (evict b)
  evict-IsValid = record {
    cap_min = v.cap_min;
    cap_max = v.cap_max;
    systole_in = v.systole_in;
    diastole_in = next_index_in b.heart_diastole;
    heads_count = length-map b.organ_read_heads _ ∙ v.heads_count;
    heads_in = heads_evict;
  }

  admit-IsValid : (next : ℕ) (g : Globule) → IsIndex next → IsValid (admit b next g).0
  admit-IsValid next g h = ground arith

  pump-IsValid_lem : (g : Globule) → IsValid (pump b g).0
  unfolding pump
  pump-IsValid_lem g = ground (
    arith,
    next_index_in b.heart_systole,
    evict-IsValid,
    admit-IsValid (next_index b b.heart_systole) g,
  )

module _ (P : ℕ → Type 0) (b : Bus) where
  -- The loop of `gc` picks one of the positions that it is given.
  pub furthest_of : (m : ℕ) (hs : List ℕ) → P m → All P hs → P (furthest b m hs)
  unfolding furthest
  furthest_of m [] p h = p
  furthest_of m (x ∷ xs) p h = elim (Bool-cases (ltb (distance b m) (distance b x))) [
    | inl e ↦ rw e (furthest_of x xs h.0 h.1)
    | inr e ↦ rw e (furthest_of m xs p h.1)
  ]

-- The read position where the loop stops lies in the ring, if it starts there.
absorb_loop_in :
    (fuel : ℕ) {b : Bus} (organ head room : ℕ) (out : List Globule) {r : ℕ × List Globule}
    → IsValid b
    → IsIndex head
    → absorb_loop fuel b organ head room out ≡ some r
    → IsIndex r.0
unfolding absorb_loop
absorb_loop_in zero organ head room out v h e = cc
absorb_loop_in (suc fuel) {b} organ head room out {r} v h e = ground (
  arith,
  next_index_in v head,
  absorb_loop_in fuel organ (next_index b head) (room - 1) (out ++ (b.blood_stream head ∷ []))
      {r = r} v,
  absorb_loop_in fuel organ (next_index b head) room out {r = r} v,
)

absorb-IsValid :
    (fuel : ℕ) {b : Bus} (organ max_globules : ℕ) {r : Bus × List Globule}
    → IsValid b
    → absorb fuel b organ max_globules ≡ some r
    → IsValid r.0
unfolding absorb
absorb-IsValid fuel {b} organ m {r} v e = elim (Option-cases (absorb_loop fuel b organ head m [])) [
  | inl out ↦ ground arith
  | inr (p, found) ↦ ground (
    arith,
    length-set b.organ_read_heads organ p.0,
    All-set IsIndex b.organ_read_heads organ p.0 v.heads_in,
    absorb_loop_in fuel organ head m [] v
        (All-get_or IsIndex b.organ_read_heads organ 0 v.heads_in (omega arith)) found,
  )
]
  where
    head : ℕ
    head = get_or b.organ_read_heads organ 0

gc-IsValid : {b : Bus} → IsValid b → IsValid (gc b)
unfolding gc
gc-IsValid {b} v =
    ground (arith, furthest_of IsIndex b b.heart_systole b.organ_read_heads v.systole_in v.heads_in)

init-IsValid : {b : Bus} → IsValid b → IsValid (init b)
unfolding init
init-IsValid {b} v = record {
  cap_min = v.cap_min;
  cap_max = v.cap_max;
  systole_in = omega arith;
  diastole_in = omega arith;
  heads_count = length-map b.organ_read_heads _ ∙ v.heads_count;
  heads_in = All-map IsIndex _ b.organ_read_heads (λ h p. omega arith) v.heads_in;
}

-- The calls of the organs. An `absorb` step is a call that returns.
pub data Step : Bus → Bus → Type 0 where
  init_step : (b : Bus) → Step b (init b)
  pump_step : (b : Bus) (g : Globule) → Step b (pump b g).0
  absorb_step :
      (b : Bus) (fuel organ max_globules : ℕ) (r : Bus × List Globule)
      → absorb fuel b organ max_globules ≡ some r
      → Step b r.0
  gc_step : (b : Bus) → Step b (gc b)

pub data Reach (s : Bus) : Bus → Type 0 where
  here : Reach s s
  next : {t u : Bus} → Reach s t → Step t u → Reach s u

Step-IsValid : {t u : Bus} → Step t u → IsValid t → IsValid u
Step-IsValid (init_step b) v = init-IsValid v
Step-IsValid (pump_step b g) v = pump-IsValid_lem v g
Step-IsValid (absorb_step b fuel organ m r e) v = absorb-IsValid fuel organ m v e
Step-IsValid (gc_step b) v = gc-IsValid v

-- Whatever calls are made from the first state on, in whatever order, the bus stays within its
-- bounds: capacity between 1024 and 2048, every position inside the stream of 2048.
pub Reach-IsValid : (g : Globule) {b : Bus} → Reach (boot g) b → IsValid b
Reach-IsValid g here = boot-IsValid g
Reach-IsValid g (next r st) = Step-IsValid st (Reach-IsValid g r)
