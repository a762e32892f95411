-- ===== src/Organs/Examples.antt =====
-- Runs of the registry, and its theorems at concrete states.
use operating_organism.Organs
use operating_organism.Prelude.{set, ◌≡◌, refl, true, arith}
use operating_organism.Organs.{blank, Organs, beat, publish, get, aggregate_of, worst_nonvital_of}
use operating_organism.Organs.Health.{IsValid}
use operating_organism.Bus.{GlobuleType, Globule, Bus, pumped, pump, signal}

abbrev quiet : Globule
quiet = signal GlobuleType.yellow 0 0

abbrev bus : Bus
bus = operating_organism.Bus.boot quiet

-- The swarm organ (11) has published health 10, the kernel health 250.
abbrev ill : Organs
ill = record Organs.boot {
  inited = true;
  registry = set (set Organs.boot.registry 11 (beat blank 10 0)) 1 (beat blank 100 0);
}

publishes : (publish (publish Organs.boot bus 11 10 0).0 bus 1 250 0).0 ≡ ill
unfolding publish Organs.init
publishes = refl

ill-IsValid : IsValid ill
ill-IsValid = omega arith
