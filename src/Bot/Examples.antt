-- ===== src/Bot/Examples.antt =====
-- Runs of the bot, and its theorems at concrete states.
use operating_organism.Bot.Threat as Threat
use operating_organism.Bot.Instinct as Instinct
use operating_organism.Bot.Territory as Territory
use operating_organism.Prelude.{get_elem?, take, ◌≡◌, refl, true, none, [], ◌∷◌}
use operating_organism.Bot.Threat.{dormant, combat, transition_is_valid, transition}
use operating_organism.Bot.Instinct.{
  mem_spray, net_c2_beacon, fs_mass_encrypt, bot_self_scan, no_reaction, quarantine_proc,
  intensify_watch, InstinctRule, instinct_rules, applies, best_reaction, get_reaction, escalate,
  recommended_level, InstinctEvent, InstinctLayer, trigger, last_event, dump_history,
}
use operating_organism.Bot.Instinct.Trace.{Triggers, after, events, history_lem}
use operating_organism.Bot.Territory.{named, new_process, TerritoryAnomaly, TerritoryMap}
use operating_organism.Bot.Territory.Observe.{observe_process, observe_mem}
use operating_organism.Bot.Territory.Watch.{
  observe_process_step, observe_mem_step, Reach, here, next, territory-IsValid,
}
use operating_organism.Bot.Territory.Pools.{IsValid}

abbrev first_event : InstinctEvent
first_event = record {
  trigger = mem_spray;
  timestamp = 0;
  target_addr = 0;
  target_pid = 0;
  confidence = 0;
  reaction_taken = no_reaction;
  threat_level_before = 0;
  threat_level_after = 0;
}

abbrev asleep : InstinctLayer
asleep = Instinct.init first_event

-- Files that are encrypted in bulk, at full confidence, leave a bot at DORMANT there.
mass_encrypt_ignored :
    ((trigger asleep fs_mass_encrypt 7 0 100).0.threat_state.current_level ≡ dormant)
    × (recommended_level fs_mass_encrypt dormant 100 ≡ combat)
    × (get_reaction fs_mass_encrypt combat 100 ≡ quarantine_proc)
unfolding trigger Instinct.init Threat.initial recommended_level escalate transition
    transition_is_valid get_reaction best_reaction
mass_encrypt_ignored = (refl, refl, refl)

abbrev two_triggers : Triggers
two_triggers = (bot_self_scan, 3, 0, 90) ∷ (mem_spray, 9, 4096, 80) ∷ []

history_example :
    let inst = after (Instinct.init first_event) two_triggers in
    let log = events (Instinct.init first_event) two_triggers in
    (dump_history inst 5 ≡ take 5 log) × (last_event inst ≡ get_elem? log 0)
history_example = history_lem first_event two_triggers 5

abbrev first_anomaly : TerritoryAnomaly
first_anomaly = record {
  timestamp = 0;
  pid = 0;
  anomaly_type = new_process;
  severity = 0;
  description = named [];
}

abbrev empty_map : TerritoryMap
empty_map = Territory.init first_anomaly 0

abbrev seen : TerritoryMap
seen = (observe_mem (observe_process empty_map 41 1 none none).0 4096 512 41 true true).0

seen-Reach : Reach empty_map seen
seen-Reach =
    next (next here (observe_process_step empty_map 41 1 none none))
      (observe_mem_step (observe_process empty_map 41 1 none none).0 4096 512 41 true true)

territory-IsValid_example : IsValid seen
territory-IsValid_example = territory-IsValid first_anomaly 0 seen-Reach
