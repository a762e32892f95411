-- ===== src/Vital/Forth/Traps.antt =====
-- A word that calls itself never ends, and nothing keeps it from being taught.
use operating_organism.Prelude.{
  ◌==◌, Bool-cases, ℕ, zero, suc, ◌+◌, ◌-◌, ◌*◌, ◌<◌, ◌≡◌, refl, ap, ◌∙◌, inl, inr, true, false,
  none, some, List, ◌∷◌, arith,
}
use operating_organism.Vital.Forth.{
  max_words, Dictionary, word_size, name_of, code_byte, length_of, codes_from, codes, learn_word,
  find_word, Machine, is_digit, run, exec,
}

-- The word at a letter, and its code's first letter.
trapped :
    (fuel i c : ℕ) (rest : List ℕ) (d : Dictionary) (m : Machine)
    → (c == 0) ≡ false
    → is_digit c ≡ false
    → find_word d.word_count 0 d c ≡ some i
    → codes d i ≡ c ∷ rest
    → exec fuel d m c ≡ none
unfolding exec run
trapped zero i c rest d m goes letter found body = refl
trapped (suc fuel) i c rest d m goes letter found body =
    rw (goes, letter, found, exec, body, run, trapped fuel i c rest d m goes letter found body) refl

-- The code of a word that is not empty begins with its first letter.
codes_open :
    (n i c : ℕ) (d : Dictionary)
    → length_of d i ≡ n
    → 0 < n
    → code_byte d i 0 ≡ c
    → (rest : List ℕ) × codes d i ≡ c ∷ rest
unfolding codes codes_from
codes_open zero i c d e l h = absurd (omega (arith, l))
codes_open (suc n) i c d e l h = (codes_from n 1 i d, rw (codes, e, codes_from, h) refl)

module _ (d : Dictionary) (name len : ℕ) (code : ℕ → ℕ) (room : d.word_count < max_words) where
  learnt : Dictionary
  learnt = learn_word d name code len

  learnt_count : (learn_word d name code len).word_count ≡ d.word_count + 1
  unfolding learn_word
  learnt_count = ground (arith, room)

  learnt_name : (i : ℕ) → i ≡ d.word_count → name_of (learn_word d name code len) i ≡ name
  unfolding learn_word
  learnt_name i e = ground (arith, room, e)

  old_name : (i : ℕ) → i < d.word_count → name_of (learn_word d name code len) i ≡ name_of d i
  unfolding learn_word
  old_name i l = ground (arith, room, l)

  learnt_length : length_of (learn_word d name code len) d.word_count ≡ len
  unfolding learn_word
  learnt_length = ground (arith, room)

  learnt_code : 0 < len → code_byte (learn_word d name code len) d.word_count 0 ≡ code 0
  unfolding learn_word
  learnt_code l = ground (arith, room, l, ap code zero_offset)
    where
      zero_offset : word_size * d.word_count + 1 + 0 - (word_size * d.word_count + 1) ≡ 0
      zero_offset = omega arith

  -- Behind words of other names, the new one is found.
  learnt_found :
      (n i : ℕ)
      → i + n ≡ d.word_count
      → find_word n i d name ≡ none
      → find_word (suc n) i (learn_word d name code len) name ≡ some d.word_count
  unfolding find_word
  learnt_found zero i h e =
      rw (find_word, learnt_name i (omega (arith, h)), same) (ap some (omega (arith, h)))
    where
      same : (name == name) ≡ true
      same = ground arith
  learnt_found (suc n) i h e = elim (Bool-cases (name_of d i == name)) [
    | inl same ↦ absurd (cc (same, e))
    | inr other ↦
        rw (find_word, old_name i (omega (arith, h)), other)
          (learnt_found n (i + 1) (omega (arith, h)) (cc (other, e)))
  ]

-- A word of a new name whose code begins with its own name is learnt, and its call returns at no
-- depth: a second call of the same word stands behind every one.
pub self_call_diverges :
    (d : Dictionary) (name len : ℕ) (code : ℕ → ℕ) (fuel : ℕ) (m : Machine)
    → d.word_count < max_words
    → find_word d.word_count 0 d name ≡ none
    → 0 < name
    → is_digit name ≡ false
    → 0 < len
    → code 0 ≡ name
    → exec fuel (learn_word d name code len) m name ≡ none
self_call_diverges d name len code fuel m room new some_name letter some_code self =
    trapped fuel d.word_count name opened.0 taught m (ground (arith, some_name)) letter found
      opened.1
  where
    taught : Dictionary
    taught = learn_word d name code len

    one_more : taught.word_count ≡ suc d.word_count
    one_more = omega (arith, learnt_count d name len code room)

    found : find_word taught.word_count 0 taught name ≡ some d.word_count
    found =
        ap (λ n. find_word n 0 taught name) one_more
        ∙ learnt_found d name len code room d.word_count 0 (omega arith) new

    opened : (rest : List ℕ) × codes taught d.word_count ≡ name ∷ rest
    opened =
        codes_open (length_of taught d.word_count) d.word_count name taught refl
          (omega (arith, learnt_length d name len code room, some_code))
          (learnt_code d name len code room some_code ∙ self)
