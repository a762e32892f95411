-- ===== src/Vital/Heart/Rhythm.antt =====
-- What the beats do to the tension, and how a lesson can stop them.
use operating_organism.Prelude.{leb, ◌==◌, if◌then◌else◌, ℕ, ◌+◌, ◌-◌, ◌≤◌, ◌<◌, ◌≡◌, arith}
use operating_organism.Vital.Regulator.{yang}
use operating_organism.Vital.Spark.{Spark, shift_balance}
use operating_organism.Vital.Heart.Beat.{oscillate, influence}

-- What a beat does to the tension when neither the clock, hunger, nor the Forth moves it: the
-- regulator asks for order, the spark goes towards the personality, and the personality weighs in.
unfoldable quiet_tension : Spark → ℕ → Spark
quiet_tension s p = influence (oscillate (shift_balance s yang 1) p) p

-- In a quiet beat with a tension above 0 and a personality from 100 to 150, a tension at or below the
-- personality stands still and one above it falls by two, or by one if that leads to the personality:
-- it never rises, not even towards the personality.
quiet_tension_lem :
    (s : Spark) (p : ℕ)
    → 0 < s.tension
    → 100 ≤ p
    → p ≤ 150
    → (quiet_tension s p).tension
      ≡ (if leb s.tension p then s.tension else (if s.tension == p + 1 then p else s.tension - 2))
unfolding quiet_tension influence oscillate shift_balance
quiet_tension_lem s p h low high = ground (arith, h, low, high)
