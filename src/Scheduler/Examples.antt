-- ===== src/Scheduler/Examples.antt =====
-- Runs of the scheduler, and its theorems at concrete states.
use operating_organism.Scheduler
use mathlib.Core.Option
use operating_organism.Prelude.{u64, ℕ, ◌+◌, ◌%◌, ◌≡◌, refl, some, List, [], ◌∷◌, arith}
use operating_organism.Scheduler.{
  relaxed, vigilant, cortex, immune, max_organs, cycle_duration, Scheduler, find_free, fill_slot,
  register_organ, walk, circadian, modulate, beat, pulse,
}
use operating_organism.Scheduler.Register.{IsValid, fill_slot-IsValid, init-boot-IsValid}
use operating_organism.Scheduler.Sleep.{Asleep, pulse-Asleep}

abbrev start : Scheduler
start = record Scheduler.boot { current_state = relaxed }

start-IsValid : IsValid 0 start
unfolding Scheduler.init
start-IsValid = init-boot-IsValid

-- The cortex and the immune system, with entry points 70 and 80.
abbrev one : Scheduler
one = fill_slot start cortex (some 70) 0

abbrev two : Scheduler
two = fill_slot one immune (some 80) 1

one-IsValid : IsValid 1 one
one-IsValid = fill_slot-IsValid 0 start start-IsValid cortex (some 70) (omega arith)

two-IsValid : IsValid 2 two
two-IsValid = fill_slot-IsValid 1 one one-IsValid immune (some 80) (omega arith)

registers : register_organ (register_organ start cortex (some 70)) immune (some 80) ≡ two
unfolding register_organ find_free
registers = refl

beats : Option.map (λ r. r.1) (pulse 16 two) ≡ some (80 ∷ 70 ∷ [])
unfolding pulse circadian walk beat modulate
beats = refl

-- After 255 registrations and as many initialisations as they take.
abbrev worn : Scheduler
worn = record start { next_task_id = 0 }

pulse-Asleep_example :
    (s' : Scheduler) × (called : List ℕ) × (pulse 2 two ≡ some (s', called))
    × IsValid 2 s'
    × (Asleep 2 two → Asleep 2 s')
    × (two.current_state ≡ vigilant
        → u64 (two.circadian_clock + 1) % cycle_duration ≡ 0
        → Asleep 2 s')
pulse-Asleep_example = pulse-Asleep 2 2 two (omega arith) two-IsValid
