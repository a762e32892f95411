-- ===== src/Planes/Examples.antt =====
-- Runs of the control planes, and their theorems at concrete states.
use operating_organism.Organs
use operating_organism.Bus
use operating_organism.Prelude.{length, set, All, ◌<◌, ◌≡◌, refl, true, false, [], arith}
use operating_organism.Planes.{
  no_decision, hold, optimize, PlaneStatus, reflex_engine_run, strategic_brain_run,
  organ_autonomy_run,
}
use operating_organism.Planes.Tick.{Body, resolve, control_tick}
use operating_organism.Planes.Telemetry.{Packet, telemetry_magic, wire_size, serialize}
use operating_organism.Planes.Frame.{parse, parse-serialize}
use operating_organism.Planes.Survival.{verdict, average, worst, mode_after, tick_verdict}
use operating_organism.Homeostasis.{normal, next_mode, evaluate}
use operating_organism.Homeostasis.Modes.{living}
use operating_organism.Organs.{
  blank, Organs, beat, get, aggregate_of, aggregate_health, worst_nonvital_of,
  worst_nonvital_health, chain_alive_of, vital_chain_alive,
}
use operating_organism.Organs.Health.{IsValid}
use operating_organism.Bus.{GlobuleType, Bus, signal}

abbrev silent : PlaneStatus
silent = record { active = false; last_decision = no_decision; reason_code = 0; risk_score = 0 }

-- One organ outside the vital chain has reported health 95.
abbrev well : Organs
well = record Organs.boot {
  inited = true;
  registry = set Organs.boot.registry 11 (beat blank 95 0);
}

abbrev body : Body
body = record {
  organs = well;
  bus = Bus.boot (signal GlobuleType.yellow 0 0);
  mode = normal;
  reflex_status = silent;
  strategic_status = silent;
  autonomy_status = silent;
  ticks = 41;
  breath_rate = 7;
  exhaled = [];
}

well-IsValid : IsValid well
well-IsValid = omega arith

-- The strategic plane proposes to optimise, and the tick holds.
well_holds : ((strategic_brain_run normal 95).0 ≡ optimize) × ((control_tick body).1 ≡ hold)
unfolding control_tick strategic_brain_run evaluate next_mode aggregate_health worst_nonvital_health
    vital_chain_alive aggregate_of worst_nonvital_of chain_alive_of reflex_engine_run
    organ_autonomy_run resolve get
well_holds = (refl, refl)

tick_verdict_example :
    ((control_tick body).1 ≡ verdict (mode_after body) (average body) (worst body) (living well))
    × ((control_tick body).0.mode ≡ mode_after body)
    × ((control_tick body).0.ticks ≡ 42)
tick_verdict_example = tick_verdict body well-IsValid

abbrev packet : Packet
packet = record {
  magic = telemetry_magic;
  organ_id = 0xFFFF;
  mode = 2;
  health = 55;
  cpu_neural = 30;
  mem_used_mb = 0;
  breath_rate = 70000;
  tick = 1000000;
}

parse-serialize_example :
    (parse (serialize packet 32) ≡ packet)
    × (length (serialize packet 32) ≡ wire_size)
    × All (λ byte. byte < 256) (serialize packet 32)
parse-serialize_example = parse-serialize packet 32 (omega arith) (omega arith)
