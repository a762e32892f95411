-- ===== src/Evolution/Examples.antt =====
-- The theorems of the mutations and the pheromones at a thymus that knows one signature.
use operating_organism.Prelude.{length, ℕ, ◌+◌, ◌≤◌, min, ◌≡◌, refl, true, List, [], ◌∷◌, arith}
use operating_organism.Bus.{GlobuleType, Globule, blood_volume, Bus, signal}
use operating_organism.Identity.{
  fnv1a, signature_of, calculate_dna, Thymus, matches, is_known, trust_dna,
}
use operating_organism.Evolution.{apply_mutation}
use operating_organism.Evolution.Saturation.{knows, mutate, expected_among, mutations_close}
use operating_organism.Bus as Bus

abbrev quiet : Globule
quiet = signal GlobuleType.red 6 0

abbrev own : List ℕ
own = calculate_dna (1 ∷ 2 ∷ 3 ∷ [])

abbrev stranger : List ℕ
stranger = calculate_dna (9 ∷ [])

-- The bus has been widened by an alarm, so that its ring has its full width.
abbrev taught : Thymus
taught = record {
  trusted_genome = own ∷ [];
  bus = record (Bus.boot quiet) { current_capacity = blood_volume };
}

known_before : knows taught own ≡ true
unfolding is_known calculate_dna signature_of fnv1a matches
known_before = refl

-- Known weights, none, and unknown ones.
mutations_close_example :
    let t' = mutate taught quiet 640 ((1 ∷ 2 ∷ 3 ∷ []) ∷ [] ∷ (9 ∷ []) ∷ []) in
    let n = expected_among taught ((1 ∷ 2 ∷ 3 ∷ []) ∷ [] ∷ (9 ∷ []) ∷ []) in
    (knows t' stranger ≡ knows taught stranger)
    × ((apply_mutation t' quiet 640 (1 ∷ 2 ∷ 3 ∷ [])).1 ≡ knows taught own)
    × (length t'.trusted_genome ≡ min 64 (1 + n))
    × (64 ≤ 1 + n → trust_dna t' stranger ≡ t')
mutations_close_example =
    mutations_close taught quiet 640 ((1 ∷ 2 ∷ 3 ∷ []) ∷ [] ∷ (9 ∷ []) ∷ []) (1 ∷ 2 ∷ 3 ∷ [])
      stranger (omega arith)
