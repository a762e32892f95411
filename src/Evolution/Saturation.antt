-- ===== src/Evolution/Saturation.antt =====
-- What mutations do to the list of the trusted signatures.
use operating_organism.Prelude.{
  ltb, if◌then◌else◌, Bool-cases, length, length-append, ℕ, ◌+◌, ◌≤◌, min, ◌≡◌, refl, ap, ◌∙◌, inl,
  inr, Bool, true, false, List, [], ◌∷◌, ◌++◌, arith,
}
use operating_organism.Bus.{Globule}
use operating_organism.Identity.{
  max_trusted, calculate_dna, Thymus, matches, is_known, is_self, trust_dna,
}
use operating_organism.Identity.Self.{matches_sound}
use operating_organism.Evolution.{apply_mutation}

-- Whether a thymus takes a signature for the self.
abbrev pub knows : Thymus → List ℕ → Bool
knows t s = is_known t.trusted_genome s

known-append :
    (gs : List (List ℕ)) (r s : List ℕ)
    → is_known (gs ++ (r ∷ [])) s ≡ (if is_known gs s then true else matches r s)
unfolding is_known
known-append [] r s = ground arith
known-append (g ∷ gs) r s = elim (Bool-cases (matches g s)) [
  | inl same ↦ rw same refl
  | inr other ↦ rw other (known-append gs r s)
]

-- A signature that is known already adds nothing to what is known.
known_again :
    (gs : List (List ℕ)) (r s : List ℕ)
    → is_known gs r ≡ true
    → is_known (gs ++ (r ∷ [])) s ≡ is_known gs s
known_again gs r s known = rw (known-append gs r s) (elim (Bool-cases (is_known gs s)) [
  | inl yes_s ↦ rw yes_s refl
  | inr no_s ↦ rw no_s (elim (Bool-cases (matches r s)) [
    | inl same ↦ absurd (cc (known, no_s, matches_sound r s same))
    | inr other ↦ other
  ])
])

-- Mutations, the first one first.
unfoldable pub mutate : Thymus → Globule → ℕ → List (List ℕ) → Thymus
mutate t junk addr [] = t
mutate t junk addr (ws ∷ more) = mutate (apply_mutation t junk addr ws).0 junk addr more

-- Weights that are there, and whose signature is known; and how many of a list are so.
abbrev is_expected : Thymus → List ℕ → Bool
is_expected t [] = false
is_expected t (w ∷ weights) = knows t (calculate_dna (w ∷ weights))

abbrev pub expected_among : Thymus → List (List ℕ) → ℕ
expected_among t [] = 0
expected_among t (ws ∷ more) = (if is_expected t ws then 1 else 0) + expected_among t more

trust_dna-knows :
    (t : Thymus) (r s : List ℕ) → knows t r ≡ true → knows (trust_dna t r) s ≡ knows t s
unfolding trust_dna
trust_dna-knows t r s known = elim (Bool-cases (ltb (length t.trusted_genome) max_trusted)) [
  | inl room ↦ rw room (known_again t.trusted_genome r s known)
  | inr full ↦ rw full refl
]

length-trust_dna :
    (t : Thymus) (r : List ℕ)
    → length t.trusted_genome ≤ max_trusted
    → length (trust_dna t r).trusted_genome ≡ min max_trusted (length t.trusted_genome + 1)
unfolding trust_dna
length-trust_dna t r few = elim (Bool-cases (ltb (length t.trusted_genome) max_trusted)) [
  | inl room ↦ rw room (ground (arith, room, length-append t.trusted_genome (r ∷ [])))
  | inr full ↦ rw full (ground (arith, full, few))
]

-- A mutation changes nothing of what is known, is accepted if it is expected, and writes one entry
-- more if it is accepted and there is room.
record Kept (t t' : Thymus) (n : ℕ) : Type 0 where
  same : (s : List ℕ) → knows t' s ≡ knows t s
  size : length t'.trusted_genome ≡ min max_trusted (length t.trusted_genome + n)

module _ (junk : Globule) (addr : ℕ) where
  apply-accepts : (t : Thymus) (ws : List ℕ) → (apply_mutation t junk addr ws).1 ≡ is_expected t ws
  unfolding apply_mutation is_self
  apply-accepts t [] = refl
  apply-accepts t (w ∷ weights) = elim (Bool-cases (knows t (calculate_dna (w ∷ weights)))) [
    | inl known ↦ rw known refl
    | inr foreign ↦ rw foreign refl
  ]

  apply-Kept :
      (t : Thymus) (ws : List ℕ)
      → length t.trusted_genome ≤ max_trusted
      → Kept t (apply_mutation t junk addr ws).0 (if is_expected t ws then 1 else 0)
  unfolding apply_mutation is_self
  apply-Kept t [] few = record { same = λ s. refl; size = omega (arith, few) }
  apply-Kept t (w ∷ weights) few =
      let sig = calculate_dna (w ∷ weights) in
      elim (Bool-cases (knows t sig)) [
        | inl known ↦ rw known (record {
          same = λ s. trust_dna-knows t sig s known;
          size = length-trust_dna t sig few;
        })
        | inr foreign ↦ rw foreign (record { same = λ s. refl; size = omega (arith, few) })
      ]

  expected_same :
      (t t' : Thymus) (ws : List ℕ)
      → ((s : List ℕ) → knows t' s ≡ knows t s)
      → is_expected t' ws ≡ is_expected t ws
  expected_same t t' [] e = refl
  expected_same t t' (w ∷ weights) e = e (calculate_dna (w ∷ weights))

  among_same :
      (t t' : Thymus) (wss : List (List ℕ))
      → ((s : List ℕ) → knows t' s ≡ knows t s)
      → expected_among t' wss ≡ expected_among t wss
  among_same t t' [] e = refl
  among_same t t' (ws ∷ more) e =
      rw (expected_same t t' ws e)
        (ap (λ n. (if is_expected t ws then 1 else 0) + n) (among_same t t' more e))

  mutate-Kept :
      (t : Thymus) (wss : List (List ℕ))
      → length t.trusted_genome ≤ max_trusted
      → Kept t (mutate t junk addr wss) (expected_among t wss)
  unfolding mutate
  mutate-Kept t [] few = record { same = λ s. refl; size = omega (arith, few) }
  mutate-Kept t (ws ∷ more) few =
      let t' = (apply_mutation t junk addr ws).0 in
      let one = apply-Kept t ws few in
      let size = one.size in
      let later = mutate-Kept t' more (omega (arith, size)) in
      let rest = later.size in
      record {
        same = λ s. later.same s ∙ one.same s;
        size = omega (arith, size, rest, among_same t t' more one.same);
      }

full-trust_dna :
    (t : Thymus) (s : List ℕ) → max_trusted ≤ length t.trusted_genome → trust_dna t s ≡ t
unfolding trust_dna
full-trust_dna t s full = ground (arith, full)

-- Whatever mutations are tried, one after the other, on a thymus with at most 64 entries: what is
-- known does not change, so that no mutation teaches anything; a mutation that comes after them is
-- accepted exactly if it has weights whose signature was known at the start; and every one that was
-- accepted has added one entry, up to 64. When there are 64, nothing can be trusted any more.
pub mutations_close :
    (t : Thymus) (junk : Globule) (addr : ℕ) (wss : List (List ℕ)) (ws s : List ℕ)
    → length t.trusted_genome ≤ max_trusted
    → let t' = mutate t junk addr wss in
      let n = expected_among t wss in
      (knows t' s ≡ knows t s)
      × ((apply_mutation t' junk addr ws).1 ≡ is_expected t ws)
      × (length t'.trusted_genome ≡ min 64 (length t.trusted_genome + n))
      × (64 ≤ length t.trusted_genome + n → trust_dna t' s ≡ t')
mutations_close t junk addr wss ws s few =
    let kept = mutate-Kept junk addr t wss few in
    let t' = mutate t junk addr wss in
    let size = kept.size in
    (
      kept.same s,
      apply-accepts junk addr t' ws ∙ expected_same junk addr t t' ws kept.same,
      size,
      λ enough. full-trust_dna t' s (omega (arith, size, enough)),
    )
