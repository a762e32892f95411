-- ===== src/Bot/Instinct/Trace.antt =====
-- The history of the instinct layer, and what a trigger calls.
use operating_organism.Prelude.{
  length, get_elem?, take, u64, ℕ, ◌+◌, ◌≤◌, min, ◌≡◌, refl, ◌⊎◌, true, List, [], ◌∷◌, arith,
}
use operating_organism.Bot.History.{
  history_size, Holds, empty-Holds, push-Holds, last-Holds, recent-Holds,
}
use operating_organism.Bot.Threat.{combat}
use operating_organism.Bot.Instinct.{
  TriggerType, ReactionType, intensify_watch, log_full, get_reaction, recommended_level,
  InstinctEvent, swarm_alerted, Callbacks, InstinctLayer, init, act, event_of, trigger, last_event,
  dump_history,
}

-- Triggers, the latest first: the type, the process, the address and the confidence of each.
abbrev pub Triggers : Type 0
Triggers = List (TriggerType × ℕ × ℕ × ℕ)

-- The layer after these triggers.
unfoldable pub after : InstinctLayer → Triggers → InstinctLayer
after inst [] = inst
after inst ((t, pid, addr, confidence) ∷ calls) =
    (trigger (after inst calls) t pid addr confidence).0

-- The event of each of them, the latest first.
unfoldable pub events : InstinctLayer → Triggers → List InstinctEvent
unfolding after
events inst [] = []
events inst ((t, pid, addr, confidence) ∷ calls) =
    event_of (after inst calls) t pid addr confidence ∷ events inst calls

after-Holds :
    (blank : InstinctEvent) (calls : Triggers)
    → Holds (after (init blank) calls).history (events (init blank) calls)
unfolding after events trigger init
after-Holds blank [] = empty-Holds (λ i. blank)
after-Holds blank ((t, pid, addr, confidence) ∷ calls) =
    push-Holds (after (init blank) calls).history (events (init blank) calls)
      (event_of (after (init blank) calls) t pid addr confidence) (after-Holds blank calls)

-- After any number of triggers, be it more than 2^32, a dump of `n` events shows the events of the
-- latest triggers, the latest first: `n` of them, or 256 if `n` is more, or all that there were.
-- The last event is that of the latest trigger; without a trigger there is none.
pub history_lem :
    (blank : InstinctEvent) (calls : Triggers) (n : ℕ)
    → let inst = after (init blank) calls in
      let log = events (init blank) calls in
      (dump_history inst n ≡ take (min n history_size) log) × (last_event inst ≡ get_elem? log 0)
unfolding dump_history last_event
history_lem blank calls n =
    let inst = after (init blank) calls in
    let log = events (init blank) calls in
    let ring = after-Holds blank calls in
    (recent-Holds n inst.history log ring, last-Holds inst.history log ring)

act_lem :
    (c : Callbacks) (found : ReactionType) (t : TriggerType) (pid addr level : ℕ)
    → (length (act c found t pid addr level) ≤ 1)
      × (c.on_swarm_alert ≡ true
          → combat ≤ level
          → (found ≡ log_full) ⊎ (found ≡ intensify_watch)
          → act c found t pid addr level ≡ swarm_alerted level t ∷ [])
unfolding act
act_lem c found t pid addr level = ground arith

-- A trigger counts itself, and calls at most one callback.
-- Whenever the rules recommend COMBAT or more and the swarm's callback is set, a reaction that has
-- no callback of its own alerts the swarm.
trigger_calls :
    (inst : InstinctLayer) (t : TriggerType) (pid addr confidence : ℕ)
    → let (inst', called) = trigger inst t pid addr confidence in
      let level = recommended_level t inst.threat_state.current_level confidence in
      let found = get_reaction t inst.threat_state.current_level confidence in
      (inst'.total_triggers ≡ u64 (inst.total_triggers + 1))
      × (inst'.callbacks ≡ inst.callbacks)
      × (length called ≤ 1)
      × (inst.callbacks.on_swarm_alert ≡ true
          → combat ≤ level
          → (found ≡ log_full) ⊎ (found ≡ intensify_watch)
          → called ≡ swarm_alerted level t ∷ [])
unfolding trigger
trigger_calls inst t pid addr confidence =
    let current = inst.threat_state.current_level in
    let (short, alerts) =
      act_lem inst.callbacks (get_reaction t current confidence) t pid addr
        (recommended_level t current confidence) in
    (refl, refl, short, alerts)
