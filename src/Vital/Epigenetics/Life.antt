-- ===== src/Vital/Epigenetics/Life.antt =====
-- What a sequence of experiences leaves in the memory.
use operating_organism.Prelude.{
  length, ℕ, zero, suc, ◌+◌, ◌*◌, ◌/◌, ◌%◌, ◌≤◌, ◌<◌, ◌≡◌, refl, List, [], ◌∷◌, arith,
}
use operating_organism.Prelude.Int.{ℤ, pos, negsuc}
use operating_organism.Vital.Epigenetics.{
  Epigenome, checksum_of, blank, effective_impact, mark_experience, get_success_ratio,
}

-- The values stay in their ranges, and the checksum is that of the counters.
pub record IsSound (m : Epigenome) : Type 0 where
  pub bias_low : 1 ≤ m.personality_bias
  pub bias_high : m.personality_bias ≤ 252
  pub resilience_high : m.resilience ≤ 250
  pub head_inside : m.event_head < 256
  pub sealed : m.checksum ≡ checksum_of m

effective_impact_small : (r : ℕ) → effective_impact r ≤ 5
effective_impact_small r = ground arith

-- The counters of experiences, which only the wrap of 32 bits takes from their meaning.
is_trauma : ℤ → ℕ
is_trauma (negsuc n) = 1
is_trauma (pos n) = 0

is_success : ℤ → ℕ
is_success (negsuc n) = 0
is_success (pos zero) = 0
is_success (pos (suc n)) = 1

pub blank-IsSound : (m : Epigenome) → IsSound (blank m)
unfolding checksum_of
blank-IsSound m = ground arith

pub mark-IsSound :
    (m : Epigenome) (pulse : ℕ) (impact : ℤ) → IsSound m → IsSound (mark_experience m pulse impact)
unfolding mark_experience checksum_of
mark-IsSound m pulse (negsuc n) v = ground arith
mark-IsSound m pulse (pos zero) v = ground arith
mark-IsSound m pulse (pos (suc n)) v = ground arith

-- Experiences in the order in which they come, each with the pulse at which it comes.
unfoldable pub live : Epigenome → List (ℕ × ℤ) → Epigenome
live m [] = m
live m ((pulse, impact) ∷ rest) = live (mark_experience m pulse impact) rest

pub traumas : List (ℕ × ℤ) → ℕ
traumas [] = 0
traumas ((pulse, impact) ∷ rest) = is_trauma impact + traumas rest

pub successes : List (ℕ × ℤ) → ℕ
successes [] = 0
successes ((pulse, impact) ∷ rest) = is_success impact + successes rest

live-IsSound : (m : Epigenome) (xs : List (ℕ × ℤ)) → IsSound m → IsSound (live m xs)
unfolding live
live-IsSound m [] v = v
live-IsSound m ((pulse, impact) ∷ rest) v =
    live-IsSound (mark_experience m pulse impact) rest (mark-IsSound m pulse impact v)

-- How often each kind of experience came, without the wrap.
record Counted (m : Epigenome) (t s n : ℕ) : Type 0 where
  trauma : m.trauma_level ≡ t
  success : m.success_count ≡ s
  total : m.total_experiences ≡ n
  head : m.event_head ≡ n % 256

module _ (m : Epigenome) {t s n : ℕ} (pulse : ℕ) (small : n + 1 < 4294967296) (t_small : t ≤ n)
    (s_small : s ≤ n) where
  mark-Counted :
      (impact : ℤ)
      → Counted m t s n
      → Counted
          (mark_experience m pulse impact)
          (t + is_trauma impact)
          (s + is_success impact)
          (n + 1)
  unfolding mark_experience is_trauma is_success
  mark-Counted (negsuc i) c = ground arith
  mark-Counted (pos zero) c = ground arith
  mark-Counted (pos (suc i)) c = ground arith

kinds_small : (i : ℤ) → is_trauma i + is_success i ≤ 1
unfolding is_trauma is_success
kinds_small (negsuc i) = omega arith
kinds_small (pos zero) = omega arith
kinds_small (pos (suc i)) = omega arith

live-Counted :
    (m : Epigenome) (t s n : ℕ) (xs : List (ℕ × ℤ))
    → n + length xs < 4294967296
    → t ≤ n
    → s ≤ n
    → Counted m t s n
    → Counted (live m xs) (t + traumas xs) (s + successes xs) (n + length xs)
unfolding live traumas successes
live-Counted m t s n [] small p q c = ground arith
live-Counted m t s n ((pulse, i) ∷ rest) small p q c =
    let k = kinds_small i in
    let later =
      live-Counted (mark_experience m pulse i) (t + is_trauma i) (s + is_success i) (n + 1) rest
        (omega arith) (omega (arith, k)) (omega (arith, k))
        (mark-Counted m pulse (omega arith) p q i c) in
    record {
      trauma = omega (arith, later.trauma);
      success = omega (arith, later.success);
      total = omega (arith, later.total);
      head = omega (arith, later.head);
    }

successes-le : (xs : List (ℕ × ℤ)) → successes xs ≤ length xs
unfolding successes
successes-le [] = omega arith
successes-le ((pulse, i) ∷ rest) = omega (arith, successes-le rest, kinds_small i)

born : (m : Epigenome) → Counted (blank m) 0 0 0
born m = record { trauma = refl; success = refl; total = refl; head = refl }

ratio_lem :
    (e : Epigenome) (s n : ℕ)
    → e.success_count ≡ s
    → e.total_experiences ≡ n
    → 1 ≤ n
    → n ≤ 42949672
    → s ≤ n
    → get_success_ratio e ≡ s * 100 / n
unfolding get_success_ratio
ratio_lem e s n p q pos_n few most =
    let exact : e.success_count * 100 % 4294967296 ≡ s * 100 = omega arith in
    let small : s * 100 / n ≤ 100 = grind arith in rw (exact, q) (ground arith)

-- From a first birth on, through fewer than 2^32 experiences in any order: the bias stays between 1
-- and 252, the resilience at 250 at most, and the checksum is that of the counters; the traumas, the
-- successes and all experiences are counted, and the journal goes on at their number modulo 256.
-- After 1 to 42949672 experiences the success ratio is the percentage of successes.
pub live_lem :
    (m : Epigenome) (xs : List (ℕ × ℤ))
    → length xs < 4294967296
    → let e = live (blank m) xs in
      IsSound e
      × (e.trauma_level ≡ traumas xs)
      × (e.success_count ≡ successes xs)
      × (e.total_experiences ≡ length xs)
      × (e.event_head ≡ length xs % 256)
      × (1 ≤ length xs
          → length xs ≤ 42949672
          → get_success_ratio e ≡ successes xs * 100 / length xs)
live_lem m xs small =
    let c = live-Counted (blank m) 0 0 0 xs (omega arith) (omega arith) (omega arith) (born m) in
    let total : (live (blank m) xs).total_experiences ≡ length xs = omega (arith, c.total) in
    let success : (live (blank m) xs).success_count ≡ successes xs = omega (arith, c.success) in
    (
      live-IsSound (blank m) xs (blank-IsSound m),
      omega (arith, c.trauma),
      success,
      total,
      omega (arith, c.head),
      λ some_life few.
          ratio_lem (live (blank m) xs) (successes xs) (length xs) success total some_life few
            (successes-le xs),
    )
