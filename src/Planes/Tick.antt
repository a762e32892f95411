-- ===== src/Planes/Tick.antt =====
-- The coordinated control tick (control-planes/src/control_tick.c).
use operating_organism.Prelude.{ltb, if◌then◌else◌, u32, ℕ, ◌+◌, List, [], ◌∷◌}
use operating_organism.Bus.{Bus}
use operating_organism.Organs.{Organs, aggregate_health}
use operating_organism.Homeostasis.{Mode, evaluate}
use operating_organism.Planes.{
  Decision, no_decision, hold, throttle, isolate, recover, optimize, PlaneStatus, reflex_engine_run,
  strategic_brain_run, organ_autonomy_run,
}
use operating_organism.Planes.Telemetry.{wire_size, fill, serialize}

-- `decision_rank`
unfoldable decision_rank : Decision → ℕ
decision_rank throttle = 0
decision_rank isolate = 1
decision_rank recover = 2
decision_rank hold = 3
decision_rank optimize = 4
decision_rank no_decision = 5

-- The static state of the control planes, with the registry, the mode and the bus that they share,
-- the breath rate of the network, and the frames handed to `network_exhale`, the last one first.
pub record Body : Type 0 where
  pub organs : Organs
  pub bus : Bus
  pub mode : Mode
  pub reflex_status : PlaneStatus
  pub strategic_status : PlaneStatus
  pub autonomy_status : PlaneStatus
  pub ticks : ℕ
  pub breath_rate : ℕ
  pub exhaled : List (List ℕ)

-- The more urgent of two decisions; the first one, if they rank alike.
unfoldable pub resolve : Decision → Decision → Decision
unfolding decision_rank
resolve d e = if ltb (decision_rank e) (decision_rank d) then e else d

-- `network_exhale` of a frame that is not empty.
abbrev pub exhale : List (List ℕ) → List ℕ → List (List ℕ)
exhale out [] = out
exhale out (x ∷ xs) = (x ∷ xs) ∷ out

-- `control_tick`
unfoldable pub control_tick : Body → Body × Decision
control_tick s =
    let ticks = u32 (s.ticks + 1) in
    let (o₁, b, m) = evaluate s.organs s.bus s.mode in
    let (o₂, health) = aggregate_health o₁ in
    let (o₃, reflex_decision, reflex_report) = reflex_engine_run o₂ health in
    let (strat, strat_report) = strategic_brain_run m health in
    let (auton, auton_report) = organ_autonomy_run o₃ in
    let resolved = resolve (resolve reflex_decision auton) strat in
    let (o₄, pkt) = fill o₃ m s.breath_rate ticks in
    (
      record {
        organs = o₄;
        bus = b;
        mode = m;
        reflex_status = reflex_report;
        strategic_status = strat_report;
        autonomy_status = auton_report;
        ticks = ticks;
        breath_rate = s.breath_rate;
        exhaled = exhale s.exhaled (serialize pkt wire_size);
      },
      resolved,
    )
