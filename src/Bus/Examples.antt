-- ===== src/Bus/Examples.antt =====
-- Runs of the bus, and its theorems at concrete states.
use operating_organism.Bus
use mathlib.Core.Option
use operating_organism.Prelude.{
  ◌==◌, if◌then◌else◌, set, ℕ, zero, suc, ◌≡◌, refl, some, [], ◌∷◌, arith,
}
use operating_organism.Bus.{GlobuleType, Globule, Bus, filtered, pump, absorb, signal}
use operating_organism.Bus.Invariant.{pump_step, here, next, Reach-IsValid}
use operating_organism.Bus.Absorb.{InRing, pending, absorb_lem}

-- A trading signal for organ 7, an alert for all, and a text for the cortex from the network.
abbrev gold_signal : Globule
gold_signal = record {
  globule_id = 0;
  type = GlobuleType.gold;
  source_organ = 7;
  target_organ = 7;
  payload_addr = 0;
  payload_size = 1;
}

abbrev alert : Globule
alert = signal GlobuleType.white 2 99

abbrev text : Globule
text = record {
  globule_id = 0;
  type = GlobuleType.red;
  source_organ = 5;
  target_organ = 0;
  payload_addr = 64;
  payload_size = 128;
}

abbrev fresh : Bus
fresh = Bus.boot gold_signal

-- Organ 2 reads, and finds the alert only.
abbrev loaded : Bus
loaded = record fresh {
  blood_stream = λ i. if i == 1 then alert else gold_signal;
  heart_systole = 3;
}

loaded-IsValid : Bus.Invariant.IsValid loaded
loaded-IsValid = omega arith

absorb-loaded : Option.map (λ r. r.1) (absorb 4 loaded 2 8) ≡ some (alert ∷ [])
unfolding absorb
absorb-loaded = refl

-- A full ring: the next write position is the oldest globule.
abbrev full : Bus
full = record fresh { heart_systole = 1023 }

-- Yellow globules until the shrinking capacity meets the write position.
pumps : ℕ → Bus → Bus
pumps zero b = b
pumps (suc n) b = pumps n (pump b (signal GlobuleType.yellow 3 0)).0

shrunk_reached :
    let b = pumps 1023 (pump (pumps 1 fresh) alert).0 in
    (b.current_capacity ≡ 1025) × (b.heart_systole ≡ 1025)
unfolding pumps pump
shrunk_reached = (refl, refl)

abbrev shrunk : Bus
shrunk = record fresh { current_capacity = 1025; heart_systole = 1025 }

Reach-IsValid_example : Bus.Invariant.IsValid (pump fresh alert).0
Reach-IsValid_example = Reach-IsValid gold_signal (next here (pump_step fresh alert))

absorb_example :
    (h' : ℕ) × (absorb 1025 loaded 7 2
      ≡ some (
        record loaded { organ_read_heads = set loaded.organ_read_heads 7 h' },
        gold_signal ∷ alert ∷ [],
      ))
    × InRing loaded h'
    × (pending loaded 7 h' ≡ gold_signal ∷ [])
absorb_example = absorb_lem loaded 7 2 loaded-IsValid (omega arith) (omega arith) (omega arith)
