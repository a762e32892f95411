-- ===== src/Vital/Forth.antt =====
-- The metabolic Forth (vital-baremetal/src/metabolic_forth.c): one-letter words, a stack of 32 cells,
-- and a dictionary that grows by the words that the cortex teaches.
pub mod Layers
pub mod Traps
mod Examples
use operating_organism.Prelude.{
  ltb, leb, ◌==◌, if◌then◌else◌, length, u8, u64, sub_u64, ℕ, zero, suc, ◌+◌, ◌-◌, ◌*◌, Bool, ◌&&◌,
  Option, none, some, List, [], ◌∷◌,
}
use operating_organism.Vital.Regulator.{Force, yin, yang}
use operating_organism.Vital.Spark.{Spark, shift_balance, Aura, emit_distress_beacon}

abbrev pub stack_size : ℕ
stack_size = 32

abbrev pub max_words : ℕ
max_words = 128

-- `dictionary` and `word_count`. The array is its bytes: an entry has a name, 8 bytes of code and a
-- length. The bytes behind the array, which a long word reads, are the numbers that follow.
pub record Dictionary : Type 0 where
  pub bytes : ℕ → ℕ
  pub word_count : ℕ

-- `sizeof(forth_word_t)`
abbrev pub word_size : ℕ
word_size = 10

abbrev pub name_of : Dictionary → ℕ → ℕ
name_of d i = d.bytes (word_size * i)

abbrev pub code_byte : Dictionary → ℕ → ℕ → ℕ
code_byte d i j = d.bytes (word_size * i + 1 + j)

abbrev pub length_of : Dictionary → ℕ → ℕ
length_of d i = d.bytes (word_size * i + 9)

-- The bytes that the call of a word goes through, `n` of them from number `j` on.
pub codes_from : ℕ → ℕ → ℕ → Dictionary → List ℕ
codes_from zero j i d = []
codes_from (suc n) j i d = code_byte d i j ∷ codes_from n (j + 1) i d

unfoldable pub codes : Dictionary → ℕ → List ℕ
unfolding codes_from
codes d i = codes_from (length_of d i) 0 i d

-- `forth_learn_word` of the code at an address, whose byte `j` is `code j`, with a length of 8 bits.
unfoldable pub learn_word : Dictionary → ℕ → (ℕ → ℕ) → ℕ → Dictionary
learn_word d name code len =
    if ltb d.word_count max_words
    then record {
      bytes = λ k.
          let start = word_size * d.word_count in
          if k == start
          then name
          else if k == start + 9
          then len
          else if leb (start + 1) k && ltb k (start + 1 + (if ltb len 8 then len else 8))
          then code (k - (start + 1))
          else d.bytes k;
      word_count = u8 (d.word_count + 1);
    }
    else d

-- The first word of a name, of the `n` words from number `i` on.
unfoldable pub find_word : ℕ → ℕ → Dictionary → ℕ → Option ℕ
find_word zero i d c = none
find_word (suc n) i d c =
    let rest = find_word n (i + 1) d c in if name_of d i == c then some i else rest

-- What a program acts on: the stack, its top first, the spark and the aura; and the level of pain,
-- which it reads. A cell is a 64-bit number, the signed value by its bits.
pub record Machine : Type 0 where
  pub stack : List ℕ
  pub spark : Spark
  pub aura : Aura
  pub pain : ℕ

-- `forth_push`
abbrev pub forth_push : Machine → ℕ → Machine
forth_push m v = if ltb (length m.stack) stack_size then record m { stack = v ∷ m.stack } else m

abbrev top : List ℕ → ℕ
top [] = 0
top (x ∷ xs) = x

abbrev pub rest_of : List ℕ → List ℕ
rest_of [] = []
rest_of (x ∷ xs) = xs

-- `forth_pop`: the value, and the machine without it.
abbrev pub forth_pop : Machine → ℕ × Machine
forth_pop m = (top m.stack, record m { stack = rest_of m.stack })

-- The three operations: the second operand is popped first.
abbrev pub binary : (ℕ → ℕ → ℕ) → Machine → Machine
binary op m = let (b, m₁) = forth_pop m in let (a, m₂) = forth_pop m₁ in forth_push m₂ (op a b)

abbrev pub shift : Force → Machine → Machine
shift f m =
    let (weight, m₁) = forth_pop m in record m₁ { spark = shift_balance m₁.spark f (u8 weight) }

abbrev pub is_digit : ℕ → Bool
is_digit c = leb 48 c && leb c 57

-- The primitives, by their letters + - * Y y P T L . and D; any other letter does nothing.
unfoldable pub primitive : Machine → ℕ → Machine
unfolding shift_balance
primitive m c =
    if c == 43
    then binary (λ a b. u64 (a + b)) m
    else if c == 45
    then binary sub_u64 m
    else if c == 42
    then binary (λ a b. u64 (a * b)) m
    else if c == 89
    then shift yang m
    else if c == 121
    then shift yin m
    else if c == 80
    then forth_push m m.spark.pulse_count
    else if c == 84
    then forth_push m m.spark.tension
    else if c == 76
    then forth_push m m.pain
    else if c == 46
    then (forth_pop m).1
    else if c == 68
    then record m { aura = emit_distress_beacon m.aura }
    else m

-- The loop over the code of a word, with what executes a letter.
pub run : (Machine → ℕ → Option Machine) → Machine → List ℕ → Option Machine
run step m [] = some m
run step m (c ∷ cs) = elim (step m c) [ none ↦ none | some m' ↦ run step m' cs ]

-- `vital_forth_exec` of the text of one letter, to a depth of `fuel` calls; a zero is the empty text.
unfoldable pub exec : ℕ → Dictionary → Machine → ℕ → Option Machine
unfolding run find_word primitive codes
exec zero d m c = none
exec (suc fuel) d m c =
    if c == 0
    then some m
    else if is_digit c
    then some (forth_push m (c - 48))
    else elim (find_word d.word_count 0 d c) [
      | none ↦ some (primitive m c)
      | some i ↦ run (exec fuel d) m (codes d i)
    ]

-- `vital_metabolic_tick`: the words 5 and y.
unfoldable pub metabolic_tick : ℕ → Dictionary → Machine → Option Machine
unfolding exec
metabolic_tick fuel d m =
    if ltb 150 m.spark.tension
    then (elim (exec fuel d m 53) [ none ↦ none | some m' ↦ exec fuel d m' 121 ])
    else some m
