-- ===== src/Bot/Instinct.antt =====
-- bot-baremetal/instinct/instinct_layer.c: the table of reflexes, and what a trigger does.
pub mod Reaction
pub mod Escalation
pub mod Trace
use operating_organism.Prelude.{
  ltb, leb, ◌==◌, if◌then◌else◌, set, u8, u64, ℕ, ◌+◌, Bool, false, ◌&&◌, Option, some, List, [],
  ◌∷◌,
}
use operating_organism.Bot.History.{History, push, last, recent}
use operating_organism.Bot.Threat.{
  Reason, printed, dormant, vigilance, alert, combat, survival, ThreatState, initial, transition,
}

-- `TriggerType` and its codes.
pub data TriggerType : Type 0 where
  mem_write_exec mem_spray mem_shellcode_sig mem_rop_chain proc_hollow proc_inject proc_priv_esc
        proc_abnormal_child proc_debugger net_c2_beacon net_exfil_volume net_unusual_port
        net_dns_tunnel fs_mass_encrypt fs_critical_modif fs_boot_modif fs_rapid_delete
        kern_syscall_hook kern_rootkit_sig kern_dkom bot_self_scan bot_kill_attempt
        bot_corrupt_detect :
      TriggerType

abbrev pub trigger_code : TriggerType → ℕ
trigger_code mem_write_exec = 0x01
trigger_code mem_spray = 0x02
trigger_code mem_shellcode_sig = 0x03
trigger_code mem_rop_chain = 0x04
trigger_code proc_hollow = 0x10
trigger_code proc_inject = 0x11
trigger_code proc_priv_esc = 0x12
trigger_code proc_abnormal_child = 0x13
trigger_code proc_debugger = 0x14
trigger_code net_c2_beacon = 0x20
trigger_code net_exfil_volume = 0x21
trigger_code net_unusual_port = 0x22
trigger_code net_dns_tunnel = 0x23
trigger_code fs_mass_encrypt = 0x30
trigger_code fs_critical_modif = 0x31
trigger_code fs_boot_modif = 0x32
trigger_code fs_rapid_delete = 0x33
trigger_code kern_syscall_hook = 0x40
trigger_code kern_rootkit_sig = 0x41
trigger_code kern_dkom = 0x42
trigger_code bot_self_scan = 0x50
trigger_code bot_kill_attempt = 0x51
trigger_code bot_corrupt_detect = 0x52

-- `ReactionType`. Its codes are printed and nothing else.
pub data ReactionType : Type 0 where
  no_reaction quarantine_proc quarantine_file cut_network cut_network_all deploy_honeytrap
        fake_resources intensify_watch capture_memory log_full regen_agent camouflage_self
        backup_dna escalate_threat alert_swarm_mind alert_oo_bridge :
      ReactionType

pub record InstinctRule : Type 0 where
  pub trigger : TriggerType
  pub min_threat_level : ℕ
  pub min_confidence : ℕ
  pub reaction : ReactionType
  pub new_threat_level : ℕ

abbrev rule : TriggerType → ℕ → ℕ → ReactionType → ℕ → InstinctRule
rule t l c r new = record {
  trigger = t;
  min_threat_level = l;
  min_confidence = c;
  reaction = r;
  new_threat_level = new;
}

abbrev pub instinct_rules : List InstinctRule
instinct_rules =
    rule mem_write_exec 0 60 intensify_watch vigilance
    ∷ rule mem_write_exec 1 75 capture_memory alert
    ∷ rule mem_shellcode_sig 0 70 quarantine_proc alert
    ∷ rule mem_shellcode_sig 2 85 log_full combat
    ∷ rule mem_spray 0 65 intensify_watch vigilance
    ∷ rule mem_rop_chain 1 70 capture_memory alert
    ∷ rule proc_hollow 0 75 quarantine_proc alert
    ∷ rule proc_hollow 2 85 log_full combat
    ∷ rule proc_inject 0 70 quarantine_proc alert
    ∷ rule proc_priv_esc 0 65 intensify_watch alert
    ∷ rule proc_priv_esc 2 80 quarantine_proc combat
    ∷ rule proc_abnormal_child 0 60 intensify_watch vigilance
    ∷ rule proc_debugger 0 75 camouflage_self alert
    ∷ rule proc_debugger 2 85 alert_swarm_mind combat
    ∷ rule net_c2_beacon 0 70 deploy_honeytrap alert
    ∷ rule net_c2_beacon 2 85 cut_network combat
    ∷ rule net_exfil_volume 0 65 log_full alert
    ∷ rule net_exfil_volume 2 80 cut_network combat
    ∷ rule net_unusual_port 0 55 intensify_watch vigilance
    ∷ rule net_dns_tunnel 0 70 deploy_honeytrap alert
    ∷ rule fs_mass_encrypt 0 80 quarantine_proc combat
    ∷ rule fs_mass_encrypt 3 90 cut_network_all combat
    ∷ rule fs_critical_modif 0 75 alert_swarm_mind alert
    ∷ rule fs_boot_modif 0 80 alert_swarm_mind combat
    ∷ rule fs_rapid_delete 0 70 quarantine_proc alert
    ∷ rule kern_syscall_hook 0 80 alert_swarm_mind combat
    ∷ rule kern_rootkit_sig 0 75 alert_swarm_mind combat
    ∷ rule kern_dkom 0 85 cut_network_all combat
    ∷ rule bot_self_scan 0 60 camouflage_self vigilance
    ∷ rule bot_kill_attempt 0 70 backup_dna survival
    ∷ rule bot_kill_attempt 4 85 regen_agent survival
    ∷ rule bot_corrupt_detect 0 80 regen_agent survival
    ∷ []

-- The three conditions of a rule.
abbrev pub applies : TriggerType → ℕ → ℕ → InstinctRule → Bool
applies t level confidence r =
    trigger_code r.trigger == trigger_code t
    && (leb r.min_threat_level level && leb r.min_confidence confidence)

-- The loop of `instinct_get_reaction`, with the best level and reaction so far.
unfoldable pub best_reaction :
    List InstinctRule → TriggerType → ℕ → ℕ → ℕ → ReactionType → ReactionType
best_reaction [] t level confidence best_level best = best
best_reaction (r ∷ rs) t level confidence best_level best =
    let better = applies t level confidence r && leb r.min_threat_level best_level in
    best_reaction rs t level confidence (if better then r.min_threat_level else best_level)
      (if better then r.reaction else best)

-- `instinct_get_reaction`
unfoldable pub get_reaction : TriggerType → ℕ → ℕ → ReactionType
unfolding best_reaction
get_reaction t level confidence =
    best_reaction instinct_rules t level confidence 255 intensify_watch

-- The loop of `instinct_trigger` for the level that the rules recommend.
unfoldable pub escalate : List InstinctRule → TriggerType → ℕ → ℕ → ℕ → ℕ
escalate [] t level confidence new = new
escalate (r ∷ rs) t level confidence new =
    escalate rs t level confidence (
      if applies t level confidence r && ltb new r.new_threat_level
      then r.new_threat_level
      else new)

unfoldable pub recommended_level : TriggerType → ℕ → ℕ → ℕ
unfolding escalate
recommended_level t level confidence = escalate instinct_rules t level confidence level

pub record InstinctEvent : Type 0 where
  pub trigger : TriggerType
  pub timestamp : ℕ
  pub target_addr : ℕ
  pub target_pid : ℕ
  pub confidence : ℕ
  pub reaction_taken : ReactionType
  pub threat_level_before : ℕ
  pub threat_level_after : ℕ

-- What a callback was called with.
pub data Action : Type 0 where
  quarantined : ℕ → ℕ → Action
  network_cut : ℕ → Action
  honeytrap_deployed : ℕ → Action
  regen_requested : ℕ → Action
  swarm_alerted : ℕ → TriggerType → Action
  bridge_alerted : ℕ → Action

-- Which callbacks are set.
pub record Callbacks : Type 0 where
  pub on_quarantine : Bool
  pub on_network_cut : Bool
  pub on_honeytrap_deploy : Bool
  pub on_regen_request : Bool
  pub on_swarm_alert : Bool
  pub on_oo_bridge_alert : Bool

-- `false_positive_count` is written by no code, and left out.
pub record InstinctLayer : Type 0 where
  pub threat_state : ThreatState
  pub history : History InstinctEvent
  pub callbacks : Callbacks
  pub total_triggers : ℕ
  pub total_reactions : ℕ

-- `instinct_init`: no callback is set; `blank` is the event of zero bytes.
unfoldable pub init : InstinctEvent → InstinctLayer
init blank = record {
  threat_state = initial;
  history = record { slots = λ i. blank; head = 0; count = 0 };
  callbacks = record {
    on_quarantine = false;
    on_network_cut = false;
    on_honeytrap_deploy = false;
    on_regen_request = false;
    on_swarm_alert = false;
    on_oo_bridge_alert = false;
  };
  total_triggers = 0;
  total_reactions = 0;
}

-- A callback is called if it is set.
abbrev call_if : Bool → Action → List Action
call_if set a = if set then a ∷ [] else []

-- The switch of `instinct_trigger`.
unfoldable pub act : Callbacks → ReactionType → TriggerType → ℕ → ℕ → ℕ → List Action
act c quarantine_proc t pid addr level = call_if c.on_quarantine (quarantined pid addr)
act c cut_network t pid addr level = call_if c.on_network_cut (network_cut 0)
act c cut_network_all t pid addr level = call_if c.on_network_cut (network_cut 1)
act c deploy_honeytrap t pid addr level = call_if c.on_honeytrap_deploy (honeytrap_deployed addr)
act c regen_agent t pid addr level = call_if c.on_regen_request (regen_requested (u8 addr))
act c alert_swarm_mind t pid addr level = call_if c.on_swarm_alert (swarm_alerted level t)
act c alert_oo_bridge t pid addr level = call_if c.on_oo_bridge_alert (bridge_alerted level)
act c backup_dna t pid addr level = call_if c.on_swarm_alert (swarm_alerted level t)
act c _ t pid addr level = call_if (leb combat level && c.on_swarm_alert) (swarm_alerted level t)

-- The event that `instinct_trigger` records.
abbrev pub event_of : InstinctLayer → TriggerType → ℕ → ℕ → ℕ → InstinctEvent
event_of inst t pid addr confidence =
    let current = inst.threat_state.current_level in
    record {
      trigger = t;
      timestamp = inst.total_triggers;
      target_addr = addr;
      target_pid = pid;
      confidence = confidence;
      reaction_taken = get_reaction t current confidence;
      threat_level_before = current;
      threat_level_after = recommended_level t current confidence;
    }

-- `instinct_trigger`: the new layer, and the callbacks that were called.
unfoldable pub trigger : InstinctLayer → TriggerType → ℕ → ℕ → ℕ → InstinctLayer × List Action
trigger inst t pid addr confidence =
    let current = inst.threat_state.current_level in
    let reaction = get_reaction t current confidence in
    let new_level = recommended_level t current confidence in
    let why = some (printed (trigger_code t) pid confidence) in
    (
      record inst {
        history = push inst.history (event_of inst t pid addr confidence);
        total_triggers = u64 (inst.total_triggers + 1);
        threat_state =
            if new_level == current
            then inst.threat_state
            else (transition inst.threat_state new_level why).0;
        total_reactions = u64 (inst.total_reactions + 1);
      },
      act inst.callbacks reaction t pid addr new_level,
    )

-- `instinct_last_event`
unfoldable pub last_event : InstinctLayer → Option InstinctEvent
last_event inst = last inst.history

-- `instinct_dump_history`: the events that it prints.
unfoldable pub dump_history : InstinctLayer → ℕ → List InstinctEvent
dump_history inst n = recent n inst.history

-- `instinct_reset_to_dormant`
unfoldable pub reset_to_dormant : InstinctLayer → Option Reason → InstinctLayer × ℕ
reset_to_dormant inst why =
    if inst.threat_state.current_level == dormant
    then (inst, 0)
    else let (s, result) = transition inst.threat_state dormant why in
      (record inst { threat_state = s }, result)
