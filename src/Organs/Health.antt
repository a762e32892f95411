-- ===== src/Organs/Health.antt =====
-- What the three readings of the registry say of it: the average health, the worst non-vital
-- health, and the life of the vital chain.
use operating_organism.Prelude.{
  ltb, ◌==◌, if◌then◌else◌, length, get_or, u32, All, ℕ, ◌+◌, ◌*◌, ◌/◌, ◌≤◌, ◌<◌, ◌≡◌, refl, ◌≢◌,
  ◌↔◌, true, false, ◌&&◌, List, [], ◌∷◌, arith,
}
use operating_organism.Organs.{
  organ_count, united, kernel, memory, reflex, vital, Snapshot, blank, Organs, totals, aggregate_of,
  is_vital, worst_from, worst_nonvital_of, chain, chain_alive, chain_alive_of,
}

-- A health in percent.
abbrev pub InPercent : Snapshot → Type 0
InPercent s = s.health ≤ 100

pub record IsValid (o : Organs) : Type 0 where
  pub size : length o.registry ≡ organ_count
  pub percent : All InPercent o.registry

-- The sum of the healths that are present, and their number, without wrapping.
abbrev present_sum : List Snapshot → ℕ
present_sum [] = 0
present_sum (s ∷ rest) = (if s.present then s.health else 0) + present_sum rest

abbrev present_count : List Snapshot → ℕ
present_count [] = 0
present_count (s ∷ rest) = (if s.present then 1 else 0) + present_count rest

totals_exact :
    (reg : List Snapshot) (sum n : ℕ)
    → All InPercent reg
    → sum + 100 * length reg < 4294967296
    → n + length reg < 4294967296
    → totals reg sum n ≡ (sum + present_sum reg, n + present_count reg)
unfolding totals
totals_exact [] sum n h p q = ground arith
totals_exact (s ∷ rest) sum n h p q = ground (
  arith,
  totals_exact rest (if s.present then u32 (sum + s.health) else sum)
      (if s.present then u32 (n + 1) else n) h.1 (ground arith) (ground arith),
)

sum-le : (reg : List Snapshot) → All InPercent reg → present_sum reg ≤ 100 * present_count reg
sum-le [] h = omega arith
sum-le (s ∷ rest) h = ground (arith, sum-le rest h.1)

count-le : (reg : List Snapshot) → present_count reg ≤ length reg
count-le [] = omega arith
count-le (s ∷ rest) = ground (arith, count-le rest)

mean-le : (a n : ℕ) → a ≤ 100 * n → n ≢ 0 → a / n ≤ 100
mean-le a n h p = grind arith

-- The aggregate health is the mean of the healths present, rounded down, and 100 where none is
-- present: neither the 32-bit sum nor the result in 8 bits wraps.
aggregate_mean :
    (o : Organs)
    → IsValid o
    → aggregate_of o.registry ≡ (
        if present_count o.registry == 0
        then 100
        else present_sum o.registry / present_count o.registry)
unfolding aggregate_of
aggregate_mean o v = ground (
  arith,
  totals_exact o.registry 0 0 v.percent (omega (arith, v)) (omega (arith, v)),
  mean-le (present_sum o.registry) (present_count o.registry) (sum-le o.registry v.percent),
)

pub aggregate-le : (o : Organs) → IsValid o → aggregate_of o.registry ≤ 100
aggregate-le o v = ground (
  arith,
  aggregate_mean o v,
  mean-le (present_sum o.registry) (present_count o.registry) (sum-le o.registry v.percent),
)

-- Every non-vital organ that is present, from index `i` on, has at least health `w`.
abbrev AllNonvital : ℕ → ℕ → List Snapshot → Type 0
AllNonvital w i [] = Unit {0}
AllNonvital w i (s ∷ rest) =
    (is_vital i ≡ false → s.present ≡ true → w ≤ s.health) × AllNonvital w (i + 1) rest

worst_from_down :
    (w i : ℕ) (reg : List Snapshot) (worst : ℕ)
    → w ≤ worst_from i reg worst
    → (w ≤ worst) × AllNonvital w i reg
unfolding worst_from
worst_from_down w i [] worst h = (h, tt)
worst_from_down w i (s ∷ rest) worst h =
    let (p, q) =
      worst_from_down w (i + 1) rest
        (if is_vital i
          then worst
          else (if s.present && ltb s.health worst then s.health else worst))
        h in
    (ground arith, ((λ a c. ground arith), q))

worst_from_up :
    (w i : ℕ) (reg : List Snapshot) (worst : ℕ)
    → w ≤ worst
    → AllNonvital w i reg
    → w ≤ worst_from i reg worst
unfolding worst_from
worst_from_up w i [] worst h k = h
worst_from_up w i (s ∷ rest) worst h k = worst_from_up w (i + 1) rest _ (ground arith) k.1

-- The worst non-vital health is the greatest number, at most 100, that no non-vital organ which is
-- present falls below.
worst_greatest :
    (o : Organs) (w : ℕ)
    → (w ≤ worst_nonvital_of o.registry) ↔ ((w ≤ 100) × AllNonvital w 0 o.registry)
unfolding worst_nonvital_of
worst_greatest o w =
    (worst_from_down w 0 o.registry 100, (λ h. worst_from_up w 0 o.registry 100 h.0 h.1))

-- The organ has not been reported dead.
abbrev IsLiving : Organs → ℕ → Type 0
IsLiving o i = ((get_or o.registry i blank).present ≡ true) → 0 < (get_or o.registry i blank).health

chain_down : (o : Organs) (is : List ℕ) → chain_alive o.registry is ≡ true → All (IsLiving o) is
unfolding chain_alive
chain_down o [] h = tt
chain_down o (i ∷ is) h = (ground arith, chain_down o is (ground arith))

chain_up : (o : Organs) (is : List ℕ) → All (IsLiving o) is → chain_alive o.registry is ≡ true
unfolding chain_alive
chain_up o [] h = refl
chain_up o (i ∷ is) h = ground (arith, chain_up o is h.1)

-- The vital chain is alive exactly when none of united, kernel, memory, reflex and vital has been
-- reported at health 0; an organ that never reported does not break it.
chain_alive_iff :
    (o : Organs)
    → (chain_alive_of o.registry ≡ true) ↔ (
        IsLiving o united
        × IsLiving o kernel
        × IsLiving o memory
        × IsLiving o reflex
        × IsLiving o vital)
unfolding chain_alive_of
chain_alive_iff o = (
  (λ h. let c = chain_down o chain h in (c.0, c.1.0, c.1.1.0, c.1.1.1.0, c.1.1.1.1.0)),
  (λ h. chain_up o chain (h.0, (h.1, (h.2, (h.3, (h.4, tt)))))),
)
