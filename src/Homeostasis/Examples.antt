-- ===== src/Homeostasis/Examples.antt =====
-- Runs of the mode machine, and its theorems at concrete states.
use operating_organism.Prelude.{set, ◌+◌, ◌≡◌, refl, ◌≢◌, true}
use operating_organism.Homeostasis.{normal, safe, mode_code, next_mode, evaluate}
use operating_organism.Organs.{
  vital, blank, Organs, beat, aggregate_of, aggregate_health, worst_nonvital_of,
  worst_nonvital_health, chain_alive_of, vital_chain_alive,
}
use operating_organism.Bus.{GlobuleType, Bus, pump, signal}
use operating_organism.Homeostasis.Modes.{living, Follows, modes_lem}
use operating_organism.Organs
use operating_organism.Bus

abbrev bus : Bus
bus = Bus.boot (signal GlobuleType.yellow 0 0)

-- The memory organ is dead.
abbrev dying : Organs
dying = record Organs.boot { inited = true; registry = set Organs.boot.registry 2 (beat blank 0 0) }

dying_is_safe : (evaluate dying bus normal).2 ≡ safe
unfolding evaluate next_mode aggregate_health worst_nonvital_health vital_chain_alive aggregate_of
    worst_nonvital_of chain_alive_of
dying_is_safe = refl

modes_example :
    let (o', b', m') = evaluate dying bus normal in
    Follows normal m'
      (aggregate_of dying.registry)
      (worst_nonvital_of dying.registry)
      (living dying)
    × (o' ≡ dying)
    × (m' ≡ normal → b' ≡ bus)
    × (m' ≢ normal
        → b' ≡ (pump bus (signal GlobuleType.yellow vital (0x4D000000 + mode_code m'))).0)
modes_example = modes_lem dying bus normal
