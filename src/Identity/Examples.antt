-- ===== src/Identity/Examples.antt =====
-- The theorems of the thymus at two signatures.
use operating_organism.Bus as Bus
use operating_organism.Identity as Identity
use mathlib.Core.List.{Mem}
use operating_organism.Prelude.{if◌then◌else◌, ℕ, ◌≡◌, ◌≢◌, ◌↔◌, true, List, [], ◌∷◌, arith}
use operating_organism.Bus.{GlobuleType, Globule, Bus, pump, signal}
use operating_organism.Identity.{calculate_dna, Thymus, alert, is_self}
use operating_organism.Identity.Hash.{calculate_dna-detects}
use operating_organism.Identity.Self.{trust_all, is_self_lem}

abbrev noise : Globule
noise = signal GlobuleType.red 6 0

-- A region of three bytes, its signature, and one of another.
abbrev mine : List ℕ
mine = calculate_dna (1 ∷ 2 ∷ 3 ∷ [])

abbrev other_one : List ℕ
other_one = calculate_dna (1 ∷ 2 ∷ 4 ∷ [])

abbrev thymus : Thymus
thymus = record { trusted_genome = []; bus = Bus.boot noise }

abbrev knowing : Thymus
knowing = record thymus { trusted_genome = mine ∷ [] }

calculate_dna-detects_example : calculate_dna (1 ∷ 2 ∷ 3 ∷ []) ≢ calculate_dna (1 ∷ 2 ∷ 4 ∷ [])
calculate_dna-detects_example =
    calculate_dna-detects (1 ∷ 2 ∷ []) [] 3 4 (omega arith) (omega arith) tt (omega arith)

is_self_example :
    let told = trust_all (Identity.init thymus) (mine ∷ other_one ∷ []) in
    let (after, self) = is_self told noise 640 mine in
    ((self ≡ true) ↔ Mem mine (mine ∷ other_one ∷ []))
    × (after.trusted_genome ≡ mine ∷ other_one ∷ [])
    × (after.bus ≡ (if self then told.bus else (pump told.bus (alert noise 640)).0))
is_self_example = is_self_lem thymus (mine ∷ other_one ∷ []) noise 640 mine (omega arith)
