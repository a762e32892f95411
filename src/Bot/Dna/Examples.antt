-- ===== src/Bot/Dna/Examples.antt =====
-- A sentinel of the network, and a hash that is known.
use operating_organism.Prelude.{
  length, take, replicate, ℕ, ◌/◌, ◌%◌, ◌≤◌, ◌<◌, ◌≡◌, refl, ◌↔◌, true, false, none, List, [], ◌∷◌,
  ◌++◌, arith,
}
use operating_organism.Bot.Sha256.{transform, initial_words, padding, digest_of, sha256}
use operating_organism.Bot.Sha256.Stream.{compress, padded, sha256_lem}
use operating_organism.Bot.Dna.{
  net_watch, Pattern, Dna, max_patterns, blank_pattern, directives_text, fill_array,
  sealed_directives, init, verify, add_pattern,
}
use operating_organism.Bot.Dna.Sealing.{teach, taught_lem}

abbrev abc : List ℕ
abc = 97 ∷ 98 ∷ 99 ∷ []

-- The test vector of FIPS 180-2.
abc_digest :
    sha256 (replicate 64 0) abc
    ≡ 0xba ∷ 0x78 ∷ 0x16 ∷ 0xbf ∷ 0x8f ∷ 0x01 ∷ 0xcf ∷ 0xea ∷ 0x41 ∷ 0x41 ∷ 0x40 ∷ 0xde ∷ 0x5d
      ∷ 0xae ∷ 0x22 ∷ 0x23 ∷ 0xb0 ∷ 0x03 ∷ 0x61 ∷ 0xa3 ∷ 0x96 ∷ 0x17 ∷ 0x7a ∷ 0x9c ∷ 0xb4 ∷ 0x10
      ∷ 0xff ∷ 0x61 ∷ 0xf2 ∷ 0x00 ∷ 0x15 ∷ 0xad ∷ []
unfolding sha256 transform
abc_digest = refl

sha256_example :
    (sha256 (replicate 64 7) abc
      ≡ digest_of (compress (length (padded abc) / 64) initial_words (padded abc)))
    × (length (padded abc) % 64 ≡ 0)
    × ((length (padding (length abc)) ≤ 64) ↔ (length abc % 64 < 56))
sha256_example = sha256_lem (replicate 64 7) abc refl (omega arith)

-- The last directive has lost its last letter and its line end.
directives_cut : directives_text ≡ sealed_directives ++ (b'E' ∷ 10 ∷ [])
directives_cut = refl

abbrev worm : Pattern
worm = record blank_pattern { threat_domain = 1; confidence = 90; active = 1 }

abbrev lessons : List Pattern
lessons = worm ∷ blank_pattern ∷ []

taught_example :
    let d = teach (init net_watch none) lessons in
    (verify d ≡ true)
    × (take (length lessons) d.learned_patterns ≡ lessons)
    × (d.pattern_count ≡ length lessons)
    × (d.prime_directives ≡ fill_array 256 sealed_directives)
    × (length lessons ≡ max_patterns → add_pattern d worm ≡ (d, false))
taught_example = taught_lem net_watch none lessons worm (omega arith)

abbrev sentinel : Dna
sentinel = init net_watch none
