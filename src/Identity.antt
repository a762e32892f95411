-- ===== src/Identity.antt =====
-- The thymus (identity-baremetal/src/self_recognition.c and include/dna_hash.h): signatures of memory
-- regions, and the list of those that are the self.
pub mod Hash
pub mod Self
mod Examples
use operating_organism.Prelude.{
  ltb, ◌==◌, if◌then◌else◌, length, u64, ℕ, ◌*◌, ◌/◌, ◌%◌, ◌^◌, bit_xor, Bool, true, false, List,
  [], ◌∷◌, ◌++◌,
}
use operating_organism.Bus.{GlobuleType, Globule, Bus, pump}

-- `MAX_TRUSTED_DNA`
abbrev pub max_trusted : ℕ
max_trusted = 64

-- The round of FNV-1a for one byte.
abbrev pub fnv_step : ℕ → ℕ → ℕ
fnv_step hash b = u64 (bit_xor hash b * 0x100000001b3)

-- The first loop of `identity_hash_fnv1a`.
unfoldable pub fnv1a : ℕ → List ℕ → ℕ
fnv1a hash [] = hash
fnv1a hash (b ∷ bytes) = fnv1a (fnv_step hash b) bytes

-- The eight bytes of a word, the lowest first.
abbrev bytes_of : ℕ → List ℕ
bytes_of w =
    (w % 256)
    ∷ (w / 2 ^ 8 % 256)
    ∷ (w / 2 ^ 16 % 256)
    ∷ (w / 2 ^ 24 % 256)
    ∷ (w / 2 ^ 32 % 256)
    ∷ (w / 2 ^ 40 % 256)
    ∷ (w / 2 ^ 48 % 256)
    ∷ (w / 2 ^ 56 % 256)
    ∷ []

-- `sub_hash` at the offset `i`, and the second loop: the 32 bytes of the signature.
abbrev sub_hash : ℕ → ℕ → ℕ
sub_hash hash i = bit_xor hash (u64 (i * 0x9E3779B97F4A7C15))

unfoldable pub signature_of : ℕ → List ℕ
signature_of hash =
    bytes_of (sub_hash hash 0)
    ++ (bytes_of (sub_hash hash 8) ++ (bytes_of (sub_hash hash 16) ++ bytes_of (sub_hash hash 24)))

-- `identity_calculate_dna` of the bytes of a region.
unfoldable pub calculate_dna : List ℕ → List ℕ
unfolding fnv1a signature_of
calculate_dna region = signature_of (fnv1a 0xcbf29ce484222325 region)

-- The statics, with the entries of `trusted_genome` that are in use, and the bus.
pub record Thymus : Type 0 where
  pub trusted_genome : List (List ℕ)
  pub bus : Bus

-- `identity_init`
abbrev pub init : Thymus → Thymus
init t = record t { trusted_genome = [] }

-- The comparison of two signatures, byte for byte, up to the first that differs.
unfoldable pub matches : List ℕ → List ℕ → Bool
matches [] [] = true
matches [] (b ∷ bs) = false
matches (a ∷ more) [] = false
matches (a ∷ more) (b ∷ bs) = let rest = matches more bs in if a == b then rest else false

-- The search of `identity_is_self`.
unfoldable pub is_known : List (List ℕ) → List ℕ → Bool
unfolding matches
is_known [] s = false
is_known (g ∷ gs) s = let rest = is_known gs s in if matches g s then true else rest

-- The alarm: the payload's address is that of the signature; the fields that no code sets are those
-- of `junk`, the stack's content.
abbrev pub alert : Globule → ℕ → Globule
alert junk addr = record junk { type = GlobuleType.white; target_organ = 1; payload_addr = addr }

-- `identity_is_self` of the signature at an address: the new state and the answer.
unfoldable pub is_self : Thymus → Globule → ℕ → List ℕ → Thymus × Bool
unfolding is_known
is_self t junk addr s =
    if is_known t.trusted_genome s
    then (t, true)
    else (record t { bus = (pump t.bus (alert junk addr)).0 }, false)

-- `identity_trust_dna`
unfoldable pub trust_dna : Thymus → List ℕ → Thymus
trust_dna t s =
    if ltb (length t.trusted_genome) max_trusted
    then record t { trusted_genome = t.trusted_genome ++ (s ∷ []) }
    else t
