-- ===== src/Bot/Dna/Store.antt =====
-- Agents that go out as bytes and come back.
use operating_organism.Prelude.{
  ltb, lt→ltb, length, ℕ, ◌≤◌, ◌<◌, ◌≡◌, refl, true, false, Option, none, some, List, arith,
}
use operating_organism.Bot.Dna.{
  AgentRole, Pattern, Dna, max_patterns, blank_pattern, zeroed, init, verify, dna_size, serialize,
  deserialize, is_valid,
}
use operating_organism.Bot.Dna.Sealing.{teach, taught_lem}

zeroed_fails : verify zeroed ≡ false
unfolding verify
zeroed_fails = refl

serialize_fits : (d : Dna) (n : ℕ) → dna_size ≤ n → serialize d n ≡ some (d, dna_size)
unfolding serialize
serialize_fits d n room =
    let long : ltb n dna_size ≡ false = ground (arith, room) in rw (long, serialize) refl

serialize_short : (d : Dna) (n : ℕ) → n < dna_size → serialize d n ≡ none
unfolding serialize
serialize_short d n short = rw (lt→ltb n dna_size short, serialize) refl

module _ (d image : Dna) (n : ℕ) where
  deserialize_fits : dna_size ≤ n → verify image ≡ true → deserialize d image n ≡ (image, true)
  unfolding deserialize
  deserialize_fits room checked =
      let long : ltb n dna_size ≡ false = ground (arith, room) in
      rw (long, checked, deserialize) refl

  deserialize_fails : dna_size ≤ n → verify image ≡ false → deserialize d image n ≡ (zeroed, false)
  unfolding deserialize
  deserialize_fails room broken =
      let long : ltb n dna_size ≡ false = ground (arith, room) in
      rw (long, broken, deserialize) refl

  deserialize_short : n < dna_size → deserialize d image n ≡ (d, false)
  unfolding deserialize
  deserialize_short short = rw (lt→ltb n dna_size short, deserialize) refl

valid_of_verify : (d : Dna) → verify d ≡ true → is_valid d ≡ true
unfolding is_valid verify
valid_of_verify d h = ground arith

-- An agent that has been made and taught as above comes back from a buffer with room for it as it
-- was, with its check passed; a shorter buffer takes nothing.
stored_lem :
    (role : AgentRole) (name : Option (List ℕ)) (ps : List Pattern) (target : Dna)
    (out_len in_len : ℕ)
    → length ps ≤ max_patterns
    → let d = teach (init role name) ps in
      (dna_size ≤ out_len → serialize d out_len ≡ some (d, dna_size))
      × (out_len < dna_size → serialize d out_len ≡ none)
      × (dna_size ≤ in_len → deserialize target d in_len ≡ (d, true))
stored_lem role name ps target out_len in_len small =
    let d = teach (init role name) ps in
    let checked : verify d ≡ true = (taught_lem role name ps blank_pattern small).0 in
    (
      serialize_fits d out_len,
      serialize_short d out_len,
      λ room. deserialize_fits target d in_len room checked,
    )
