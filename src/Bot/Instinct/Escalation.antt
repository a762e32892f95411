-- ===== src/Bot/Instinct/Escalation.antt =====
-- How a trigger moves the threat level.
use operating_organism.Prelude.{
  ◌==◌, if◌then◌else◌, not, ℕ, zero, suc, ◌%◌, ◌≤◌, ◌≡◌, refl, ◌≢◌, ◌↔◌, ◌⊎◌, ◌||◌, Option, some,
  List, [], ◌∷◌, arith,
}
use operating_organism.Bot.Threat.{
  Reason, printed, dormant, vigilance, alert, combat, ThreatState, transition_is_valid, transition,
}
use operating_organism.Bot.Instinct.{
  TriggerType, trigger_code, InstinctRule, instinct_rules, escalate, recommended_level,
  InstinctLayer, trigger, reset_to_dormant,
}
use operating_organism.Bot.History.{history_size}

escalate_ge :
    (rs : List InstinctRule) (t : TriggerType) (level confidence new : ℕ)
    → new ≤ escalate rs t level confidence new
unfolding escalate
escalate_ge [] t level confidence new = omega arith
escalate_ge (r ∷ rs) t level confidence new = ground (
  arith,
  escalate_ge rs t level confidence new,
  escalate_ge rs t level confidence r.new_threat_level,
)

transition_level :
    (s : ThreatState) (new : ℕ) (why : Option Reason)
    → s.current_level ≤ new
    → let s' = (if new == s.current_level then s else (transition s new why).0) in
      (new ≤ 5 × (transition_is_valid s.current_level new ≢ 0) → s'.current_level ≡ new)
      × (transition_is_valid s.current_level new ≡ 0 → s' ≡ s)
      × (s.current_level ≤ s'.current_level)
unfolding transition
transition_level s new why h = ground arith

-- A trigger leads to the level that the rules recommend if the matrix has that step, and leaves the
-- level, and all of the threat state, as it is if not. The level never falls.
trigger_level :
    (inst : InstinctLayer) (t : TriggerType) (pid addr confidence : ℕ)
    → let s = inst.threat_state in
      let s' = (trigger inst t pid addr confidence).0.threat_state in
      let new = recommended_level t s.current_level confidence in
      (s.current_level ≤ new)
      × (new ≤ 5 × (transition_is_valid s.current_level new ≢ 0) → s'.current_level ≡ new)
      × (transition_is_valid s.current_level new ≡ 0 → s' ≡ s)
      × (s.current_level ≤ s'.current_level)
unfolding trigger recommended_level
trigger_level inst t pid addr confidence =
    let s = inst.threat_state in
    let why = some (printed (trigger_code t) pid confidence) in
    let up = escalate_ge instinct_rules t s.current_level confidence s.current_level in
    let (reached, blocked, kept) =
      transition_level s (escalate instinct_rules t s.current_level confidence s.current_level) why
        up in
    (up, reached, blocked, kept)

-- From DORMANT no step of more than one level is valid.
dormant_steps : (to : ℕ) → alert ≤ to → transition_is_valid dormant to ≡ 0
unfolding transition_is_valid
dormant_steps zero h = absurd (omega arith)
dormant_steps (suc zero) h = absurd (omega arith)
dormant_steps (suc (suc zero)) h = refl
dormant_steps (suc (suc (suc zero))) h = refl
dormant_steps (suc (suc (suc (suc zero)))) h = refl
dormant_steps (suc (suc (suc (suc (suc zero))))) h = refl
dormant_steps (suc (suc (suc (suc (suc (suc n)))))) h = ground arith

-- At DORMANT, a trigger for which the rules recommend ALERT or more changes no level: the matrix
-- has no such step. The event that it records all the same says that the level was reached.
dormant_blocked :
    (inst : InstinctLayer) (t : TriggerType) (pid addr confidence : ℕ)
    → inst.threat_state.current_level ≡ dormant
    → alert ≤ recommended_level t dormant confidence
    → let inst' = (trigger inst t pid addr confidence).0 in
      (inst'.threat_state ≡ inst.threat_state)
      × ((inst'.history.slots (inst.history.head % history_size)).threat_level_after
          ≡ recommended_level t dormant confidence)
unfolding trigger
dormant_blocked inst t pid addr confidence h k =
    let (_, _, stays, _) = trigger_level inst t pid addr confidence in
    ground (arith, stays, dormant_steps (recommended_level t dormant confidence) k)

to_dormant :
    (from : ℕ)
    → from ≤ 5
    → (transition_is_valid from dormant == 0) ≡ not (from == vigilance || from == combat)
unfolding transition_is_valid
to_dormant zero h = refl
to_dormant (suc zero) h = refl
to_dormant (suc (suc zero)) h = refl
to_dormant (suc (suc (suc zero))) h = refl
to_dormant (suc (suc (suc (suc zero)))) h = refl
to_dormant (suc (suc (suc (suc (suc zero))))) h = refl
to_dormant (suc (suc (suc (suc (suc (suc n)))))) h = absurd (omega arith)

-- A reset succeeds exactly from VIGILANCE and COMBAT, and leaves everything as it is from the other
-- levels; at DORMANT it answers 0, too.
reset_lem :
    (inst : InstinctLayer) (why : Option Reason)
    → inst.threat_state.current_level ≤ 5
    → let r = reset_to_dormant inst why in
      let level = inst.threat_state.current_level in
      ((r.1 ≡ 1) ↔ ((level ≡ vigilance) ⊎ (level ≡ combat)))
      × (r.1 ≡ 1 → r.0.threat_state.current_level ≡ dormant)
      × (r.1 ≢ 1 → r.0 ≡ inst)
unfolding reset_to_dormant transition
reset_lem inst why h = ground (arith, to_dormant inst.threat_state.current_level h)
