-- ===== src/Vital/Forth/Examples.antt =====
-- A dictionary of two words, and its runs.
use operating_organism.Prelude.{get_or, ℕ, zero, suc, ◌<◌, ◌≡◌, refl, some, List, [], ◌∷◌, arith}
use operating_organism.Vital.Regulator.{yang}
use operating_organism.Vital.Forth.{Dictionary, learn_word, find_word, Machine, primitive, exec}
use operating_organism.Vital.Forth.Layers.{IsLayered, IsSound, exec_lem}

abbrev blank : Dictionary
blank = record { bytes = λ k. 0; word_count = 0 }

-- A text as the memory that it stands in.
abbrev text : List ℕ → ℕ → ℕ
text cs j = get_or cs j 0

-- The word a is 2*, the word b is aa.
abbrev double : Dictionary
double = learn_word blank 97 (text (50 ∷ 42 ∷ [])) 2

abbrev taught : Dictionary
taught = learn_word double 98 (text (97 ∷ 97 ∷ [])) 2

abbrev idle : Machine
idle = record {
  stack = 3 ∷ [];
  spark = record {
    current_force = yang;
    tension = 128;
    pulse_count = 7;
    jitter = 0;
    birth_timestamp = 0;
    age_cycles = 0;
  };
  aura = record { r = 0; g = 0; b = 0; pulse_intensity = 0; sine_wave = 0 };
  pain = 0;
}

-- Four times three.
run_b : exec 3 taught idle 98 ≡ some (record idle { stack = 12 ∷ [] })
unfolding exec learn_word
run_b = refl

-- Three minus seven, in 64 bits.
run_minus :
    primitive (record idle { stack = 7 ∷ 3 ∷ [] }) 45
    ≡ record idle { stack = 18446744073709551612 ∷ [] }
unfolding primitive
run_minus = refl

taught-IsLayered : IsLayered taught
unfolding learn_word find_word
taught-IsLayered zero zero k some_word inside letter found = cc
taught-IsLayered zero (suc zero) k some_word inside letter found = cc found
taught-IsLayered zero (suc (suc j)) k some_word inside letter found = absurd (omega (arith, inside))
taught-IsLayered (suc zero) zero k some_word inside letter found = ground (arith, found)
taught-IsLayered (suc zero) (suc zero) k some_word inside letter found = ground (arith, found)
taught-IsLayered (suc zero) (suc (suc j)) k some_word inside letter found =
    absurd (omega (arith, inside))
taught-IsLayered (suc (suc i)) j k some_word inside letter found = absurd (omega (arith, some_word))

exec_example :
    (m' : Machine) × IsSound m'
    × ((fuel : ℕ) → taught.word_count < fuel → exec fuel taught idle 98 ≡ some m')
exec_example =
    exec_lem taught 98 idle taught-IsLayered (record { bounded = omega arith; byte = omega arith })
