-- ===== src/Vital/Forth/Layers.antt =====
-- Programs end: a dictionary whose words call only earlier words needs a depth of one more than their
-- number.
use operating_organism.Prelude.{
  ltb, ◌==◌, if◌then◌else◌, Bool-cases, Option-cases, length, u64, sub_u64, All, ℕ, zero, suc, ◌+◌,
  ◌-◌, ◌*◌, ◌≤◌, ◌<◌, ◌≡◌, refl, ◌∙◌, inl, inr, Bool, true, false, none, some, List, [], ◌∷◌, arith,
}
use operating_organism.Vital.Regulator.{Force, yin, yang}
use operating_organism.Vital.Spark.{shift_balance_small}
use operating_organism.Vital.Forth.{
  stack_size, Dictionary, code_byte, length_of, codes_from, codes, find_word, Machine, forth_push,
  rest_of, forth_pop, binary, shift, is_digit, primitive, run, exec, metabolic_tick,
}

-- Whatever letter of a word's code is a word itself is an earlier word.
abbrev pub IsLayered : Dictionary → Type 0
IsLayered d =
    (i j k : ℕ)
    → i < d.word_count
    → j < length_of d i
    → is_digit (code_byte d i j) ≡ false
    → find_word d.word_count 0 d (code_byte d i j) ≡ some k
    → k < i

-- The stack within its array, the tension a byte.
pub record IsSound (m : Machine) : Type 0 where
  pub bounded : length m.stack ≤ stack_size
  pub byte : m.spark.tension < 256

forth_push-IsSound : (m : Machine) (v : ℕ) → IsSound m → IsSound (forth_push m v)
forth_push-IsSound m v s = elim (Bool-cases (ltb (length m.stack) stack_size)) [
  | inl room ↦ rw room (record { bounded = ground (arith, room); byte = s.byte })
  | inr full ↦ rw full s
]

length-rest_of : (xs : List ℕ) → length (rest_of xs) ≤ length xs
length-rest_of [] = omega arith
length-rest_of (x ∷ xs) = omega arith

forth_pop-IsSound : (m : Machine) → IsSound m → IsSound (forth_pop m).1
forth_pop-IsSound m s = record {
  bounded = omega (arith, s.bounded, length-rest_of m.stack);
  byte = s.byte;
}

binary-IsSound : (op : ℕ → ℕ → ℕ) (m : Machine) → IsSound m → IsSound (binary op m)
binary-IsSound op m s =
    forth_push-IsSound _ _ (forth_pop-IsSound (forth_pop m).1 (forth_pop-IsSound m s))

shift-IsSound : (f : Force) (m : Machine) → IsSound m → IsSound (shift f m)
shift-IsSound f m s =
    let popped = forth_pop-IsSound m s in
    record { bounded = popped.bounded; byte = shift_balance_small m.spark f _ s.byte }

if-IsSound : (b : Bool) (m n : Machine) → IsSound m → IsSound n → IsSound (if b then m else n)
if-IsSound true m n s t = s
if-IsSound false m n s t = t

primitive-IsSound : (m : Machine) (c : ℕ) → IsSound m → IsSound (primitive m c)
unfolding primitive
primitive-IsSound m c s = if-IsSound (c == 43) _ _ (binary-IsSound (λ a b. u64 (a + b)) m s) (
    if-IsSound (c == 45) _ _ (binary-IsSound sub_u64 m s) (
      if-IsSound (c == 42) _ _ (binary-IsSound (λ a b. u64 (a * b)) m s) (
        if-IsSound (c == 89) _ _ (shift-IsSound yang m s) (
          if-IsSound (c == 121) _ _ (shift-IsSound yin m s) (
            if-IsSound (c == 80) _ _ (forth_push-IsSound m m.spark.pulse_count s) (
              if-IsSound (c == 84) _ _ (forth_push-IsSound m m.spark.tension s) (
                if-IsSound (c == 76) _ _ (forth_push-IsSound m m.pain s) (
                  if-IsSound (c == 46) _ _ (forth_pop-IsSound m s) (
                    if-IsSound (c == 68) _ _ (record { bounded = s.bounded; byte = s.byte })
                      s)))))))))

find_word-bound :
    (n i k c : ℕ) (d : Dictionary) → find_word n i d c ≡ some k → (i ≤ k) × (k < i + n)
unfolding find_word
find_word-bound zero i k c d e = cc
find_word-bound (suc n) i k c d e = ground (arith, find_word-bound n (i + 1) k c d)

module _ (d : Dictionary) where
  -- A letter that ends, in a sound machine, at every depth above `n`.
  record Ends (n c : ℕ) (m : Machine) : Type 0 where
    after : Machine
    sound : IsSound after
    ends : (fuel : ℕ) → n < fuel → exec fuel d m c ≡ some after

  record RunEnds (n : ℕ) (cs : List ℕ) (m : Machine) : Type 0 where
    after : Machine
    sound : IsSound after
    ends : (fuel : ℕ) → n < fuel → run (exec fuel d) m cs ≡ some after

  run_ends :
      (n : ℕ) (cs : List ℕ) (m : Machine)
      → IsSound m
      → All (λ c. (m' : Machine) → IsSound m' → Ends n c m') cs
      → RunEnds n cs m
  unfolding run
  run_ends n [] m s h = record { after = m; sound = s; ends = λ fuel l. refl }
  run_ends n (c ∷ cs) m s (first, others) =
      let one = first m s in
      let more = run_ends n cs one.after one.sound others in
      record {
        after = more.after;
        sound = more.sound;
        ends = λ fuel l. rw (run, one.ends fuel l) (more.ends fuel l);
      }

  codes-All :
      (P : ℕ → Type 0) (n j i : ℕ)
      → ((j' : ℕ) → j' < j + n → P (code_byte d i j'))
      → All P (codes_from n j i d)
  unfolding codes_from
  codes-All P zero j i h = tt
  codes-All P (suc n) j i h =
      (h j (omega arith), codes-All P n (j + 1) i (λ j' l. h j' (omega (arith, l))))

  exec_empty : (fuel c : ℕ) (m : Machine) → 0 < fuel → (c == 0) ≡ true → exec fuel d m c ≡ some m
  unfolding exec
  exec_empty zero c m l e = absurd (omega (arith, l))
  exec_empty (suc fuel) c m l e = rw (e, exec) refl

  exec_digit :
      (fuel c : ℕ) (m : Machine)
      → 0 < fuel
      → (c == 0) ≡ false
      → is_digit c ≡ true
      → exec fuel d m c ≡ some (forth_push m (c - 48))
  unfolding exec
  exec_digit zero c m l e f = absurd (omega (arith, l))
  exec_digit (suc fuel) c m l e f = rw (e, f, exec) refl

  exec-primitive :
      (fuel c : ℕ) (m : Machine)
      → 0 < fuel
      → (c == 0) ≡ false
      → is_digit c ≡ false
      → find_word d.word_count 0 d c ≡ none
      → exec fuel d m c ≡ some (primitive m c)
  unfolding exec
  exec-primitive zero c m l e f g = absurd (omega (arith, l))
  exec-primitive (suc fuel) c m l e f g = rw (e, f, g, exec) refl

  exec_word :
      (fuel c i : ℕ) (m : Machine)
      → (c == 0) ≡ false
      → is_digit c ≡ false
      → find_word d.word_count 0 d c ≡ some i
      → exec (suc fuel) d m c ≡ run (exec fuel d) m (codes d i)
  unfolding exec
  exec_word fuel c i m e f g = rw (e, f, g, exec) refl

  word_deep :
      (n fuel c k : ℕ) (m after : Machine)
      → (c == 0) ≡ false
      → is_digit c ≡ false
      → find_word d.word_count 0 d c ≡ some k
      → ((fuel' : ℕ) → n < fuel' → run (exec fuel' d) m (codes d k) ≡ some after)
      → suc n < fuel
      → exec fuel d m c ≡ some after
  word_deep n zero c k m after goes letter found body l = absurd (omega (arith, l))
  word_deep n (suc fuel) c k m after goes letter found body l =
      exec_word fuel c k m goes letter found ∙ body fuel (omega (arith, l))

  -- The call of a word, when the letters of its code end.
  word-Ends :
      (n c k : ℕ) (m : Machine)
      → IsSound m
      → (c == 0) ≡ false
      → is_digit c ≡ false
      → find_word d.word_count 0 d c ≡ some k
      → ((j : ℕ) → j < length_of d k → (m' : Machine) → IsSound m' → Ends n (code_byte d k j) m')
      → Ends (suc n) c m
  unfolding codes
  word-Ends n c k m s goes letter found each =
      let body = run_ends n (codes d k) m s (
        codes-All (λ x. (m' : Machine) → IsSound m' → Ends n x m') (length_of d k) 0 k
          (λ j inside. each j (omega (arith, inside)))) in
      record {
        after = body.after;
        sound = body.sound;
        ends = λ fuel deep. word_deep n fuel c k m body.after goes letter found body.ends deep;
      }

  -- A letter, when it ends as a word.
  letter_cases :
      (n c : ℕ) (m : Machine)
      → IsSound m
      → ((c == 0) ≡ false
          → is_digit c ≡ false
          → (k : ℕ) → find_word d.word_count 0 d c ≡ some k
          → Ends n c m)
      → Ends n c m
  letter_cases n c m s as_word = elim (Bool-cases (c == 0)) [
    | inl stop ↦ record {
      after = m;
      sound = s;
      ends = λ fuel l. exec_empty fuel c m (omega (arith, l)) stop;
    }
    | inr goes ↦ elim (Bool-cases (is_digit c)) [
      | inl digit ↦ record {
        after = forth_push m (c - 48);
        sound = forth_push-IsSound m (c - 48) s;
        ends = λ fuel l. exec_digit fuel c m (omega (arith, l)) goes digit;
      }
      | inr letter ↦ elim (Option-cases (find_word d.word_count 0 d c)) [
        | inl unknown ↦ record {
          after = primitive m c;
          sound = primitive-IsSound m c s;
          ends = λ fuel l. exec-primitive fuel c m (omega (arith, l)) goes letter unknown;
        }
        | inr (k, found) ↦ as_word goes letter k found
      ]
    ]
  ]

  -- A letter that is no word with a number of `n` or more.
  letter-Ends :
      IsLayered d
      → (n c : ℕ) (m : Machine) → IsSound m
      → (is_digit c ≡ false → (k : ℕ) → find_word d.word_count 0 d c ≡ some k → k < n)
      → Ends n c m
  letter-Ends layered zero c m s below =
      letter_cases 0 c m s (λ goes letter k found. absurd (omega (arith, below letter k found)))
  letter-Ends layered (suc n) c m s below = letter_cases (suc n) c m s (λ goes letter k found.
      word-Ends n c k m s goes letter found (λ j inside m' s'.
        letter-Ends layered n (code_byte d k j) m' s' (λ other i callee. omega (
          arith,
          below letter k found,
          layered k j i (omega (arith, find_word-bound d.word_count 0 k c d found)) inside other
              callee,
        ))))

-- Where the words of a dictionary call only earlier words, every letter ends at any depth above the
-- number of words, always with the same machine: the stack within its 32 cells and the tension a
-- byte, if they were before.
pub exec_lem :
    (d : Dictionary) (c : ℕ) (m : Machine)
    → IsLayered d
    → IsSound m
    → (m' : Machine) × IsSound m' × ((fuel : ℕ) → d.word_count < fuel → exec fuel d m c ≡ some m')
exec_lem d c m layered s =
    let e =
      letter-Ends d layered d.word_count c m s
        (λ other k found. omega (arith, find_word-bound d.word_count 0 k c d found)) in
    (e.after, e.sound, e.ends)

-- The same for the tick of the metabolism.
pub metabolic_tick_lem :
    (d : Dictionary) (m : Machine)
    → IsLayered d
    → IsSound m
    → (m' : Machine) × IsSound m'
      × ((fuel : ℕ) → d.word_count < fuel → metabolic_tick fuel d m ≡ some m')
unfolding metabolic_tick
metabolic_tick_lem d m layered s = elim (Bool-cases (ltb 150 m.spark.tension)) [
  | inl tense ↦
      let (m₁, s₁, e₁) = exec_lem d 53 m layered s in
      let (m₂, s₂, e₂) = exec_lem d 121 m₁ layered s₁ in
      (m₂, s₂, λ fuel l. rw (tense, metabolic_tick, e₁ fuel l) (e₂ fuel l))
  | inr calm ↦ (m, s, λ fuel l. rw (calm, metabolic_tick) refl)
]
