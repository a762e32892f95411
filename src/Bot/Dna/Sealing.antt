-- ===== src/Bot/Dna/Sealing.antt =====
-- Agents that the operations make pass their own check.
use mathlib.Core.List.{append-nil, append_assoc}
use mathlib.Core.Path.{subst}
use operating_organism.Prelude.{
  leb, length, set, length-append, length-set, take, take-suc-set, u32, ℕ, zero, suc, ◌+◌, ◌≤◌, ◌<◌,
  ◌≡◌, refl, sym, ap, ◌∙◌, true, false, Option, List, [], ◌∷◌, ◌++◌, arith,
}
use operating_organism.Bot.Dna.{
  AgentRole, Pattern, Dna, dna_magic, dna_version, max_patterns, hashed_bytes, compute_hash, seal,
  fill_array, sealed_directives, init, bytes_eq, verify, add_pattern,
}

-- The hash does not read its own field.
seal_keeps_hash : (d : Dna) → compute_hash (seal d) ≡ compute_hash d
unfolding compute_hash hashed_bytes
seal_keeps_hash d = refl

bytes_eq_self : (n : ℕ) (a : List ℕ) → bytes_eq n a a ≡ true
unfolding bytes_eq
bytes_eq_self zero a = refl
bytes_eq_self (suc n) a = ground (arith, bytes_eq_self n a)

verify_sealed :
    (d : Dna)
    → d.magic ≡ dna_magic
    → d.version ≡ dna_version
    → d.integrity_hash ≡ compute_hash d
    → verify d ≡ true
unfolding verify
verify_sealed d m v sealed =
    let same : bytes_eq 32 (compute_hash d) d.integrity_hash ≡ true =
      ap (bytes_eq 32 (compute_hash d)) sealed ∙ bytes_eq_self 32 (compute_hash d) in
    ground (arith, same)

-- Patterns learnt in their order, whatever the result of each.
pub teach : Dna → List Pattern → Dna
teach d [] = d
teach d (p ∷ ps) = teach (add_pattern d p).0 ps

-- An agent that has learnt `ps` and nothing else.
pub record HasLearnt (d : Dna) (ps : List Pattern) : Type 0 where
  pub magic : d.magic ≡ dna_magic
  pub version : d.version ≡ dna_version
  pub sealed : d.integrity_hash ≡ compute_hash d
  pub counted : d.pattern_count ≡ length ps
  pub room : length d.learned_patterns ≡ max_patterns
  pub patterns : take (length ps) d.learned_patterns ≡ ps
  pub directives : d.prime_directives ≡ fill_array 256 sealed_directives

init-HasLearnt : (role : AgentRole) (name : Option (List ℕ)) → HasLearnt (init role name) []
unfolding init
init-HasLearnt role name = record {
  magic = refl;
  version = refl;
  sealed = sym (seal_keeps_hash _);
  counted = refl;
  room = refl;
  patterns = refl;
  directives = refl;
}

add_pattern_taken :
    (d : Dna) (p : Pattern)
    → d.pattern_count < max_patterns
    → add_pattern d p ≡ (
      seal (record d {
        learned_patterns = set d.learned_patterns d.pattern_count p;
        pattern_count = u32 (d.pattern_count + 1);
      }),
      true,
    )
unfolding add_pattern
add_pattern_taken d p room =
    let below : leb max_patterns d.pattern_count ≡ false = ground (arith, room) in
    rw (below, add_pattern) refl

add_pattern_full :
    (d : Dna) (p : Pattern) → d.pattern_count ≡ max_patterns → add_pattern d p ≡ (d, false)
unfolding add_pattern
add_pattern_full d p full =
    let above : leb max_patterns d.pattern_count ≡ true = ground (arith, full) in
    rw (above, add_pattern) refl

next_pattern :
    (n : ℕ) (ps xs : List Pattern) (p : Pattern)
    → n ≡ length ps
    → length ps < length xs
    → take (length ps) xs ≡ ps
    → take (length (ps ++ (p ∷ []))) (set xs n p) ≡ ps ++ (p ∷ [])
next_pattern n ps xs p e room old =
    let longer : length (ps ++ (p ∷ [])) ≡ suc (length ps) =
      omega (arith, length-append ps (p ∷ [])) in
    rw (longer, e) (take-suc-set (length ps) xs p room ∙ ap (λ t. t ++ (p ∷ [])) old)

add_pattern-HasLearnt :
    (d : Dna) (ps : List Pattern) (p : Pattern)
    → HasLearnt d ps
    → length ps < max_patterns
    → HasLearnt (add_pattern d p).0 (ps ++ (p ∷ []))
add_pattern-HasLearnt d ps p v small =
    let below : d.pattern_count < max_patterns = omega (arith, v.counted) in
    let longer = length-append ps (p ∷ []) in
    rw (add_pattern_taken d p below) (record {
      magic = v.magic;
      version = v.version;
      sealed = sym (seal_keeps_hash _);
      counted = omega (arith, v.counted, longer);
      room = length-set d.learned_patterns d.pattern_count p ∙ v.room;
      patterns =
          next_pattern d.pattern_count ps d.learned_patterns p v.counted (omega (arith, v.room))
            v.patterns;
      directives = v.directives;
    })

teach-HasLearnt :
    (d : Dna) (old new : List Pattern)
    → HasLearnt d old
    → length old + length new ≤ max_patterns
    → HasLearnt (teach d new) (old ++ new)
unfolding teach
teach-HasLearnt d old [] v small = rw append-nil v
teach-HasLearnt d old (p ∷ ps) v small =
    let next = add_pattern-HasLearnt d old p v (omega arith) in
    let later =
      teach-HasLearnt (add_pattern d p).0 (old ++ (p ∷ [])) ps next
        (omega (arith, length-append old (p ∷ []))) in
    subst (HasLearnt (teach (add_pattern d p).0 ps)) (append_assoc old (p ∷ []) ps) later

-- A new agent of any role and name that is taught at most 64 patterns, one after the other, passes
-- its own check at the end; it holds these patterns in their order and counts them, and its
-- directives are those of its creation. With 64 it refuses another one, and stays as it is.
pub taught_lem :
    (role : AgentRole) (name : Option (List ℕ)) (ps : List Pattern) (extra : Pattern)
    → length ps ≤ max_patterns
    → let d = teach (init role name) ps in
      (verify d ≡ true)
      × (take (length ps) d.learned_patterns ≡ ps)
      × (d.pattern_count ≡ length ps)
      × (d.prime_directives ≡ fill_array 256 sealed_directives)
      × (length ps ≡ max_patterns → add_pattern d extra ≡ (d, false))
taught_lem role name ps extra small =
    let v = teach-HasLearnt (init role name) [] ps (init-HasLearnt role name) (omega arith) in
    let d = teach (init role name) ps in
    (
      verify_sealed d v.magic v.version v.sealed,
      v.patterns,
      v.counted,
      v.directives,
      λ full. add_pattern_full d extra (v.counted ∙ full),
    )

-- The check reads nothing behind the hash: whatever is done to an agent's directives, its health and
-- its reserved bytes, it passes or fails as before.
verify_blind :
    (d : Dna) (health : ℕ) (directives rest : List ℕ)
    → verify (record d { is_healthy = health; prime_directives = directives; reserved = rest })
      ≡ verify d
unfolding verify compute_hash hashed_bytes
verify_blind d health directives rest = refl
