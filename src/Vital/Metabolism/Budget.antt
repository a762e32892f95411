-- ===== src/Vital/Metabolism/Budget.antt =====
-- No organ spends more than its budget, and what is granted is what the pool gives.
use mathlib.Core.Path.{subst}
use mathlib.Core.Option.{some-injective}
use operating_organism.Prelude.{
  ◌==◌, if◌then◌else◌, Bool-cases, Option-cases, length, set, length-set, get_or, length-map, u32,
  sub_u64, All, All-set, All-get_or, All-map, get_or-set_self, get_or-set_ne, ℕ, suc, ◌+◌, ◌/◌, ◌%◌,
  ◌^◌, ◌≤◌, ◌<◌, ◌≡◌, refl, sym, ap, ◌∙◌, ◌≢◌, inl, inr, Bool, true, false, none, some, List, [],
  ◌∷◌, map, arith,
}
use operating_organism.Vital.Metabolism.{
  OrganMetabolism, Liver, max_metabolic_organs, Metabolism, find_organ, grant, charge, no_organ,
  request_energy, generate, burn, tick,
}
use operating_organism.Vital.Nociception.{Nociceptor}

-- An organ within its budget, which is a 64-bit number.
abbrev InBudget : OrganMetabolism → Type 0
InBudget o = (o.calories_consumed ≤ o.calories_allocated) × (o.calories_allocated < 2 ^ 64)

pub record IsValid (m : Metabolism) : Type 0 where
  pub few : length m.organs ≤ max_metabolic_organs
  pub budgets : All InBudget m.organs
  pub pool : m.liver.total_energy_pool < 2 ^ 64

grant_le :
    (o : OrganMetabolism) (pool amount : ℕ)
    → InBudget o
    → let granted = grant o pool amount in
      (granted ≤ amount) × (granted ≤ pool) × (granted + o.calories_consumed ≤ o.calories_allocated)
grant_le o pool amount (h, k) = ground (arith, h, k)

charge-InBudget :
    (o : OrganMetabolism) (granted : ℕ)
    → InBudget o
    → granted + o.calories_consumed ≤ o.calories_allocated
    → InBudget (charge o granted)
charge-InBudget o granted (h, k) l = (omega arith, k)

pays : (pool granted : ℕ) → pool < 2 ^ 64 → granted ≤ pool → sub_u64 pool granted + granted ≡ pool
pays pool granted h k = omega arith

find_inside :
    (organ i : ℕ) (os : List OrganMetabolism) → find_organ organ os ≡ some i → i < length os
unfolding find_organ
find_inside organ i [] e = absurd (cc e)
find_inside organ i (o ∷ os) e = elim (Bool-cases (o.organ_id == organ)) [
  | inl same ↦ let first : some 0 ≡ some i = rw same at e in omega (arith, some-injective 0 i first)
  | inr other ↦ elim (Option-cases (find_organ organ os)) [
    | inl nowhere ↦ absurd (cc (e, other, nowhere))
    | inr (k, later) ↦
        let there : some (suc k) ≡ some i = ground (arith, e, other, later) in
        omega (arith, some-injective (suc k) i there, find_inside organ k os later)
  ]
]

-- What an organ asks for is charged to it, and the others are left alone.
pub record Charged (m m' : Metabolism) (i granted : ℕ) : Type 0 where
  consumed :
      (get_or m'.organs i no_organ).calories_consumed
      ≡ (get_or m.organs i no_organ).calories_consumed + granted
  within :
      (get_or m'.organs i no_organ).calories_consumed
      ≤ (get_or m.organs i no_organ).calories_allocated
  others : (j : ℕ) → i ≢ j → get_or m'.organs j no_organ ≡ get_or m.organs j no_organ

charged :
    (m : Metabolism) (i granted : ℕ) (liver : Liver)
    → i < length m.organs
    → InBudget (get_or m.organs i no_organ)
    → granted + (get_or m.organs i no_organ).calories_consumed
      ≤ (get_or m.organs i no_organ).calories_allocated
    → Charged m
        (record m {
          organs = set m.organs i (charge (get_or m.organs i no_organ) granted);
          liver = liver;
        })
        i
        granted
charged m i granted liver inside ok left =
    let o = get_or m.organs i no_organ in
    let at_i : get_or (set m.organs i (charge o granted)) i no_organ ≡ charge o granted =
      get_or-set_self m.organs i (charge o granted) no_organ inside in
    record {
      consumed = ap (λ (p : OrganMetabolism). p.calories_consumed) at_i ∙ omega (arith, ok, left);
      within =
          subst (λ p. p.calories_consumed ≤ o.calories_allocated) (sym at_i)
            (omega (arith, ok, left));
      others = λ j away. get_or-set_ne m.organs i j (charge o granted) no_organ away;
    }

uncharged : (m : Metabolism) (i : ℕ) → InBudget (get_or m.organs i no_organ) → Charged m m i 0
uncharged m i ok = record { consumed = omega arith; within = ok.0; others = λ j away. refl }

-- The outcome of a request, with the new state and the grant as variables.
abbrev Fair : Metabolism → ℕ → ℕ → Metabolism × ℕ → Type 0
Fair m organ amount (m', granted) =
    IsValid m'
    × (granted ≤ amount)
    × (m'.liver.total_energy_pool + granted ≡ m.liver.total_energy_pool)
    × ((i : ℕ) → find_organ organ m.organs ≡ some i → Charged m m' i granted)
    × (find_organ organ m.organs ≡ none → (granted ≡ 0) × (m' ≡ m))

granted_at :
    (m : Metabolism) (organ amount i : ℕ)
    → find_organ organ m.organs ≡ some i
    → (get_or m.organs i no_organ).is_fasting ≡ false
    → let o = get_or m.organs i no_organ in
      let granted = grant o m.liver.total_energy_pool amount in
      request_energy m organ amount ≡ (
        record m {
          organs = set m.organs i (charge o granted);
          liver = record (m.liver) {
            total_energy_pool = sub_u64 m.liver.total_energy_pool granted;
          };
        },
        granted,
      )
unfolding request_energy
granted_at m organ amount i e f = rw (request_energy, e, f) refl

-- Where at most as many organs are registered as there is room for, every organ is within its
-- budget, and the budgets and the pool fit 64 bits: a request leaves all that so, and is granted
-- at most what was asked and what the pool holds, which pays exactly what is granted. The organ's
-- consumption grows by exactly what is granted and stays within its budget, so that no more is
-- granted than is left of that; no other organ changes. An organ that is not registered is
-- granted nothing, and nothing changes.
pub request_energy_lem :
    (m : Metabolism) (organ amount : ℕ)
    → IsValid m
    → let (m', granted) = request_energy m organ amount in
      IsValid m'
      × (granted ≤ amount)
      × (m'.liver.total_energy_pool + granted ≡ m.liver.total_energy_pool)
      × ((i : ℕ) → find_organ organ m.organs ≡ some i → Charged m m' i granted)
      × (find_organ organ m.organs ≡ none → (granted ≡ 0) × (m' ≡ m))
unfolding request_energy
request_energy_lem m organ amount v = elim (Option-cases (find_organ organ m.organs)) [
  | inl e ↦
      rw (request_energy, e)
        (v, omega arith, omega arith, λ i e'. absurd (cc e'), λ z. (refl, refl))
  | inr (i, e) ↦
      let o = get_or m.organs i no_organ in
      let pool = m.liver.total_energy_pool in
      let granted = grant o pool amount in
      let ok : InBudget o = All-get_or InBudget m.organs i no_organ v.budgets (omega arith) in
      let (asked, held, left) = grant_le o pool amount ok in
      let paid : Metabolism = record m {
        organs = set m.organs i (charge o granted);
        liver = record (m.liver) { total_energy_pool = sub_u64 pool granted };
      } in
      elim (Bool-cases o.is_fasting) [
        | inl f ↦
            rw (request_energy, e, f)
              (
                v,
                omega arith,
                omega arith,
                λ k e'. subst (λ n. Charged m m n 0) (some-injective i k e') (uncharged m i ok),
                λ z. absurd (cc z),
              )
        | inr f ↦ subst (Fair m organ amount) (sym (granted_at m organ amount i e f)) (
          record {
            few = subst (λ k. k ≤ max_metabolic_organs) (sym (length-set m.organs i _)) v.few;
            budgets = All-set InBudget m.organs i _ v.budgets (charge-InBudget o granted ok left);
            pool = omega arith;
          },
          asked,
          pays pool granted v.pool held,
          λ k e'.
              subst (λ n. Charged m paid n granted) (some-injective i k (sym e ∙ e'))
                (charged m i granted paid.liver (find_inside organ i m.organs e) ok left),
          λ z. absurd (cc (z, e)),
        )
      ]
]

recycled : (o : OrganMetabolism) → InBudget o → o.calories_consumed / 2 ≤ o.calories_allocated
recycled o (h, k) = omega arith

if-All :
    (b : Bool) (xs ys : List OrganMetabolism)
    → All InBudget xs × (length xs ≤ max_metabolic_organs)
    → All InBudget ys × (length ys ≤ max_metabolic_organs)
    → let zs = (if b then xs else ys) in All InBudget zs × (length zs ≤ max_metabolic_organs)
if-All true xs ys h k = h
if-All false xs ys h k = k

burnt_small : (l : Liver) → l.total_energy_pool < 2 ^ 64 → (burn l).total_energy_pool < 2 ^ 64
burnt_small l h = ground (arith, h)

if_small :
    (b : Bool) (l : Liver) (amount : ℕ)
    → l.total_energy_pool < 2 ^ 64
    → (if b then generate l amount else l).total_energy_pool < 2 ^ 64
if_small true l amount h = omega arith
if_small false l amount h = h

-- A tick keeps every organ within its budget, and the pool a 64-bit number.
pub tick-IsValid : (blank : Nociceptor) (m : Metabolism) → IsValid m → IsValid (tick blank m)
unfolding tick
tick-IsValid blank m v =
    let recycle : OrganMetabolism → OrganMetabolism =
      λ o. record o { calories_consumed = o.calories_consumed / 2; is_fasting = false } in
    let (budgets, few) =
      if-All (u32 (m.cycle_counter + 1) % 50000 == 0) (map recycle m.organs) m.organs
        (
          All-map InBudget recycle m.organs (λ o h. (recycled o h, h.1)) v.budgets,
          rw (length-map m.organs recycle) v.few,
        )
        (v.budgets, v.few) in
    record {
      few = few;
      budgets = budgets;
      pool = if_small _ (burn m.liver) _ (burnt_small m.liver v.pool);
    }
