-- ===== src/Vital/Heart/Examples.antt =====
-- A birth, its first beat, and the lesson that stops a heart.
use operating_organism.Bus as Bus
use operating_organism.Vital.Forth.Layers as Forth
use operating_organism.Vital.Regulator as Regulator
use operating_organism.Vital.Heart.Soundness as Heart
use operating_organism.Vital.Heart.Endurance.{heartbeat_lem}
use operating_organism.Vital.Heart.Birth.{IsUnborn, birth-IsSound}
use operating_organism.Vital.Persistence.{SomaDna, save, load}
use operating_organism.Vital.Persistence.Rebirth.{rebirth_lem}
use operating_organism.Vital.Pineal.Hours.{bcd, sync_lem}
use operating_organism.Prelude.{
  replicate, ℕ, ◌+◌, ◌<◌, bit_and, ◌≡◌, refl, ◌≢◌, ◌⊎◌, true, false, none, some, [], arith,
}
use operating_organism.Prelude.Int.{pos}
use operating_organism.Vital.Regulator.{yin, yang}
use operating_organism.Vital.Spark.{shift_balance}
use operating_organism.Vital.Consciousness.{void, said, Mind}
use operating_organism.Vital.Pineal.{align, sync}
use operating_organism.Vital.Heart.{dawn, Life, no_receptor, birth}
use operating_organism.Vital.Heart.Layers.{Senses}
use operating_organism.Vital.Heart.Beat.{unfinished, alive, heartbeat}
use operating_organism.Bus.{GlobuleType, Globule, Bus, absorb, signal}

-- Zeroed memory, with the initialisers of the files.
abbrev void_mind : Mind
void_mind = record {
  history =
      λ i. record { from = void; to = void; timestamp = 0; trigger_organ = 0; reason = said [] };
  history_head = 0;
  history_count = 0;
  current_state = void;
  state_entry_cycle = 0;
  total_cycles = 0;
  bus = Bus.boot (signal GlobuleType.red 0 0);
}

abbrev statics : Life
statics = record {
  spark = record {
    current_force = yang;
    tension = 0;
    pulse_count = 0;
    jitter = 0;
    birth_timestamp = 0;
    age_cycles = 0;
  };
  aura = record { r = 0; g = 0; b = 0; pulse_intensity = 0; sine_wave = 0 };
  phase = dawn;
  phase_start = 0;
  metabolism = record {
    organs = [];
    liver = record {
      total_energy_pool = 0;
      energy_generated = 0;
      energy_wasted = 0;
      basal_metabolic_rate = 0;
    };
    cycle_counter = 0;
    nerves = record {
      nociceptors = replicate 6 no_receptor;
      global_pain = 0;
      endorphin_level = 0;
      pain_ticks = 0;
      mind = void_mind;
      marks = [];
    };
  };
  board = Regulator.initial;
  epigenome = record {
    trauma_level = 0;
    success_count = 0;
    total_experiences = 0;
    personality_bias = 0;
    resilience = 0;
    generation = 0;
    events = λ i. record { pulse_at = 0; impact = pos 0; source_organ = 0 };
    event_head = 0;
    checksum = 0;
  };
  synapses = record {
    nodes = λ i. record {
      node_id = 0;
      activation = pos 0;
      threshold = 0;
      refractory = 0;
      fire_count = 0;
    };
    links = λ i. record { from_node = 0; to_node = 0; weight = pos 0; plasticity = 0 };
    node_count = 0;
    link_count = 0;
    recently_fired = λ i. false;
  };
  rng = 0xDEADBEEFCAFEBABE;
  dictionary = record { bytes = λ k. 0; word_count = 0 };
  stack = [];
  yang_weight = 1000;
  yin_weight = 1000;
}

statics-IsUnborn : IsUnborn statics
statics-IsUnborn = record {
  stack = omega arith;
  network = record {
    calm = λ i. record { activation = (omega arith, omega arith); refractory = omega arith };
    links = λ k. record { weight = (omega arith, omega arith); plasticity = omega arith };
    few_nodes = omega arith;
    few_links = omega arith;
  };
  words = λ i j k some_word. absurd (omega (arith, some_word));
  few_words = omega arith;
  memory = refl;
}

-- The payload at every address is the letter y.
abbrev calm : Senses
calm = record {
  jitter = 120;
  rtc_hours = 9;
  rtc_reg_b = 6;
  guardian = 0;
  entropy = 77;
  is_verified = true;
  memory = λ a. 121;
  junk = signal GlobuleType.red 0 0;
}

heartbeat_example :
    ((l' : Life) × (heartbeat 129 2 (birth statics) calm ≡ alive l')
      × (Forth.IsLayered l'.dictionary → Heart.IsSound l'))
    ⊎ ((l' : Life) × Heart.IsSound l'
        × (absorb 2 l'.metabolism.nerves.mind.bus 15 1 ≡ none)
        × (heartbeat 129 2 (birth statics) calm ≡ unfinished))
heartbeat_example =
    heartbeat_lem 129 2 (birth statics) calm (birth-IsSound statics statics-IsUnborn) (omega arith)

abbrev tense : Life
tense = record statics { spark = record (statics.spark) { tension = 180 } }

abbrev lesson : Globule
lesson = record (signal GlobuleType.red 0 2) { target_organ = 15 }

two_ne_zero : bit_and 2 0x02 ≢ 0
two_ne_zero e = absurd (omega (arith, e))

-- Nine in the evening on a clock of 24 hours in BCD, and three in the afternoon on one of 12.
sync_example :
    let s = tense.spark in
    (sync s (bcd 21) 2 ≡ align s 21) × (sync s (bcd 3 + 128) 0 ≡ shift_balance s yin 30)
sync_example = sync_lem tense.spark 21 3 2 0 (omega arith) (omega arith) two_ne_zero refl refl

-- Before the first save the stack holds zeros.
abbrev zeros : SomaDna
zeros = record {
  magic = 0;
  version = 0;
  spark = statics.spark;
  synapse_size = 0;
  synapse_data = λ i. 0;
  epigenetic_data = statics.epigenome;
}

rebirth_example :
    let l = birth statics in
    let after = load statics (some (save l zeros)) in
    (after.spark ≡ l.spark)
    × (after.synapses.link_count ≡ l.synapses.link_count)
    × ((k : ℕ) → k < l.synapses.link_count → after.synapses.links k ≡ l.synapses.links k)
    × (after.synapses.nodes ≡ statics.synapses.nodes)
    × (after.epigenome ≡ statics.epigenome)
rebirth_example =
    rebirth_lem (birth statics) statics zeros ((birth-IsSound statics statics-IsUnborn).network)
