-- ===== src/Vital/Examples.antt =====
-- Runs of the vital parts, and their theorems at concrete states.
use operating_organism.Bus as Bus
use operating_organism.Vital.Consciousness as Consciousness
use operating_organism.Prelude.{
  length, get_or, replicate, ℕ, ◌+◌, ◌-◌, ◌≤◌, ◌<◌, min, ◌≡◌, refl, false, none, some, List, [],
  ◌∷◌, arith,
}
use operating_organism.Bus.{GlobuleType, Bus, signal}
use operating_organism.Vital.Consciousness.{
  void, dreaming, focused, survival, said, TransitionEvent, Mind, transition, awaken, get_history,
}
use operating_organism.Vital.Consciousness.Path.{Linked, Input, ask, beat, run, history-Linked}
use operating_organism.Vital.Nociception.{none_felt, PainSignal, Nociceptor, Nerves}
use operating_organism.Vital.Metabolism.{OrganMetabolism, Metabolism, find_organ, request_energy}
use operating_organism.Vital.Metabolism.Budget.{IsValid, Charged, request_energy_lem}
use operating_organism.Vital.Regulator.{VitalParam, param}
use operating_organism.Vital.Regulator.Settling.{IsSound, error, regulations, regulations_settle}

abbrev first : TransitionEvent
first = record { from = void; to = void; timestamp = 0; trigger_organ = 0; reason = said [] }

abbrev unborn : Mind
unborn = record {
  history = λ i. first;
  history_head = 0;
  history_count = 0;
  current_state = void;
  state_entry_cycle = 0;
  total_cycles = 0;
  bus = Bus.boot (signal GlobuleType.yellow 0 0);
}

abbrev inputs : List Input
inputs = beat ∷ ask focused 4 (said []) ∷ ask survival 4 (said []) ∷ []

-- SURVIVAL is refused to a mind that is AWARE, and FOCUSED is granted.
run_state : (run (awaken unborn) inputs).current_state ≡ focused
unfolding awaken transition Consciousness.tick run
run_state = refl

history-Linked_example :
    let m = run (awaken unborn) inputs in
    (log : List TransitionEvent) × Linked m.current_state log
    × (length (get_history m 8) ≡ min 8 (min 64 (length log)))
    × ((k : ℕ) (d : TransitionEvent)
        → k < length (get_history m 8)
        → get_or (get_history m 8) k d ≡ get_or log (length (get_history m 8) - 1 - k) d)
history-Linked_example = history-Linked unborn inputs 8 (refl, refl)

abbrev dreamer : Mind
dreamer = record unborn { current_state = dreaming; state_entry_cycle = 100; total_cycles = 200 }

abbrev quiet : PainSignal
quiet = record {
  level = none_felt;
  source = 0;
  timestamp = 0;
  raw_error_code = 0;
  endorphin_dampened = false;
}

abbrev receptor : Nociceptor
receptor = record { watches = 0; sensitivity = 128; total_signals = 0; last_signal = quiet }

abbrev nerves : Nerves
nerves = record {
  nociceptors = replicate 6 receptor;
  global_pain = 700;
  endorphin_level = 90;
  pain_ticks = 0;
  mind = dreamer;
  marks = [];
}

abbrev organ : OrganMetabolism
organ = record {
  organ_id = 4;
  calories_consumed = 30;
  calories_allocated = 100;
  metabolic_rate = 10;
  is_fasting = false;
}

abbrev fed : Metabolism
fed = record {
  organs = organ ∷ [];
  liver = record {
    total_energy_pool = 50;
    energy_generated = 50;
    energy_wasted = 0;
    basal_metabolic_rate = 100;
  };
  cycle_counter = 0;
  nerves = nerves;
}

fed-IsValid : IsValid fed
fed-IsValid = record {
  few = omega arith;
  budgets = ((omega arith, omega arith), tt);
  pool = omega arith;
}

request_energy_example :
    let (m', granted) = request_energy fed 4 90 in
    IsValid m'
    × (granted ≤ 90)
    × (m'.liver.total_energy_pool + granted ≡ 50)
    × ((i : ℕ) → find_organ 4 fed.organs ≡ some i → Charged fed m' i granted)
    × (find_organ 4 fed.organs ≡ none → (granted ≡ 0) × (m' ≡ fed))
request_energy_example = request_energy_lem fed 4 90 fed-IsValid

abbrev hot : VitalParam
hot = param 91 55 0 95 3

regulations_settle_example :
    let p' = regulations 12 hot in
    IsSound p' × (p'.target ≡ 55) × (p'.correction_rate ≡ 3) × (error p' ≡ 0)
regulations_settle_example = regulations_settle 12 hot (record {
  low = omega arith;
  high = omega arith;
  small = omega arith;
  above = omega arith;
  below = omega arith;
})
