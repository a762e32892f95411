-- ===== src/Planes.antt =====
-- The three control planes (control-planes/src/reflex_engine.c, strategic_brain.c and
-- organ_autonomy.c, with include/oo_control_planes.h). Each returns its decision and the status
-- that it fills in.
pub mod Telemetry
pub mod Frame
pub mod Survival
mod Examples
pub mod Tick
use operating_organism.Prelude.{
  ltb, leb, if◌then◌else◌, not, ℕ, zero, suc, ◌+◌, Bool, true, none, some,
}
use operating_organism.Organs.{organ_count, Organs, get, is_vital, vital_chain_alive}
use operating_organism.Homeostasis.{
  Mode, normal, degraded, safe, recovery, degraded_below, safe_below, normal_above,
}

-- `oo_decision_t`
pub data Decision : Type 0 where
  no_decision hold throttle isolate recover optimize : Decision

-- `oo_plane_status_t`
pub record PlaneStatus : Type 0 where
  pub active : Bool
  pub last_decision : Decision
  pub reason_code : ℕ
  pub risk_score : ℕ

abbrev pub report : Decision → ℕ → ℕ → Decision × PlaneStatus
report d reason risk =
    (d, record { active = true; last_decision = d; reason_code = reason; risk_score = risk })

-- `reflex_engine_run`; the mode is not read.
unfoldable pub reflex_engine_run : Organs → ℕ → Organs × Decision × PlaneStatus
reflex_engine_run o₀ agg_health =
    let (o, alive) = vital_chain_alive o₀ in
    let out : Decision × PlaneStatus =
      if not alive
      then report throttle 1 100
      else (if ltb agg_health safe_below
          then report throttle 2 90
          else (if ltb agg_health degraded_below then report isolate 3 60 else report hold 0 0)) in
    (o, out.0, out.1)

-- `strategic_brain_run`
unfoldable pub strategic_brain_run : Mode → ℕ → Decision × PlaneStatus
strategic_brain_run normal agg_health =
    if leb normal_above agg_health then report optimize 1 10 else report hold 0 10
strategic_brain_run recovery agg_health = report recover 2 30
strategic_brain_run degraded agg_health = report hold 3 50
strategic_brain_run safe agg_health = report hold 3 50

-- The loop of `organ_autonomy_run`: `n` organs are left, from organ `i` on.
pub scan_worst : ℕ → ℕ → Organs → ℕ → ℕ
unfolding get
scan_worst zero i o worst = worst
scan_worst (suc n) i o worst = scan_worst n (i + 1) o (
    if is_vital i then worst else elim (get o i) [
      | none ↦ worst
      | some s ↦ if s.present then (if ltb s.health worst then s.health else worst) else worst
    ])

-- `organ_autonomy_run`; the mode and the average are not read.
unfoldable pub organ_autonomy_run : Organs → Decision × PlaneStatus
unfolding scan_worst
organ_autonomy_run o =
    let worst = scan_worst organ_count 0 o 100 in
    if ltb worst safe_below
    then report recover 1 40
    else (if ltb worst degraded_below then report throttle 2 25 else report hold 0 0)
