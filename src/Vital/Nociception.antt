-- ===== src/Vital/Nociception.antt =====
-- vital-baremetal/src/nociception.c: pain, its signals, and the endorphins.
pub mod Damping
use operating_organism.Vital.Consciousness as Consciousness
use operating_organism.Prelude.{
  ltb, leb, ◌==◌, if◌then◌else◌, set, get_or, u8, u16, u32, u64, ℕ, ◌+◌, ◌-◌, ◌*◌, ◌/◌, ◌%◌, Bool,
  ◌&&◌, List, [], ◌∷◌,
}
use operating_organism.Bus.{GlobuleType, pump, signal}
use operating_organism.Vital.Consciousness.{
  alert, survival, acute_pain, agony, organ_vital, Mind, transition,
}

pub data PainLevel : Type 0 where
  none_felt discomfort acute chronic searing agony_felt : PainLevel

abbrev level_code : PainLevel → ℕ
level_code none_felt = 0
level_code discomfort = 1
level_code acute = 2
level_code chronic = 3
level_code searing = 4
level_code agony_felt = 5

-- `PAIN_WEIGHT`
abbrev weight : PainLevel → ℕ
weight none_felt = 0
weight discomfort = 1
weight acute = 5
weight chronic = 10
weight searing = 30
weight agony_felt = 100

pub record PainSignal : Type 0 where
  pub level : PainLevel
  pub source : ℕ
  pub timestamp : ℕ
  pub raw_error_code : ℕ
  pub endorphin_dampened : Bool

pub record Nociceptor : Type 0 where
  pub watches : ℕ
  pub sensitivity : ℕ
  pub total_signals : ℕ
  pub last_signal : PainSignal

abbrev pub max_nociceptors : ℕ
max_nociceptors = 6

-- The statics, the mind that pain acts on, and the impacts given to `vital_mark_experience` so far,
-- by their absolute value, the latest first.
pub record Nerves : Type 0 where
  pub nociceptors : List Nociceptor
  pub global_pain : ℕ
  pub endorphin_level : ℕ
  pub pain_ticks : ℕ
  pub mind : Mind
  pub marks : List ℕ

-- What is left of a pain after the endorphins.
abbrev dampen : ℕ → ℕ → ℕ
dampen endorphins pain =
    if ltb 0 endorphins
    then (let damping = u32 (pain * endorphins) / 255 in
        if ltb damping pain then pain - damping else 0)
    else pain

-- The pain of a signal at a receptor of this sensitivity.
abbrev pub felt : PainLevel → ℕ → ℕ → ℕ
felt level sensitivity endorphins = dampen endorphins (weight level * sensitivity / 128)

-- Habituation to a small pain, sensitisation by a strong one.
abbrev adapt : PainLevel → Nociceptor → Nociceptor
adapt level r =
    if leb (level_code level) 1 && ltb 100 r.total_signals
    then (if ltb 30 r.sensitivity then record r { sensitivity = r.sensitivity - 1 } else r)
    else (if leb 2 (level_code level)
        then (if ltb r.sensitivity 250
            then record r { sensitivity = u8 (r.sensitivity + 2) }
            else r)
        else r)

-- `nociception_inject_endorphin`
unfoldable pub inject_endorphin : Nerves → ℕ → Nerves
inject_endorphin n dose =
    let total = u16 (n.endorphin_level + dose) in
    record n { endorphin_level = if ltb 255 total then 255 else u8 total }

-- The reaction to a searing pain: the mind is called to ALERT, and a white globule goes to all. Its
-- payload is the address, here 0, of the signal, of 24 bytes.
abbrev pub react_searing : Nerves → Nerves
react_searing n =
    let mind = (transition n.mind alert organ_vital acute_pain).0 in
    record n { mind = record mind { bus = (pump mind.bus (signal GlobuleType.white 15 24)).0 } }

-- The reaction to agony: SURVIVAL, endorphins, and a mark of -5.
abbrev pub react_agony : Nerves → Nerves
react_agony n =
    let n' =
      inject_endorphin (record n { mind = (transition n.mind survival organ_vital agony).0 }) 200 in
    record n' { marks = 5 ∷ n'.marks }

-- The loop of `nociception_init` over the receptors from number `i` on: of the last signal the level
-- alone is set.
abbrev calibrate_from : ℕ → List Nociceptor → List Nociceptor
calibrate_from i [] = []
calibrate_from i (r ∷ rs) =
    record r {
      watches = i;
      sensitivity = 128;
      total_signals = 0;
      last_signal = record (r.last_signal) { level = none_felt };
    }
    ∷ calibrate_from (i + 1) rs

-- `nociception_init`
unfoldable pub calibrate : Nerves → Nerves
calibrate n = record n {
  nociceptors = calibrate_from 0 n.nociceptors;
  global_pain = 0;
  endorphin_level = 0;
}

-- `nociception_fire`; `blank` stands for a receptor out of range, which is not reached.
unfoldable pub fire : Nociceptor → Nerves → ℕ → PainLevel → ℕ → Nerves
fire blank n source level code =
    if leb max_nociceptors source
    then n
    else let r = get_or n.nociceptors source blank in
      let s : PainSignal = record {
        level = level;
        source = source;
        timestamp = n.pain_ticks;
        raw_error_code = code;
        endorphin_dampened = ltb 0 n.endorphin_level;
      } in
      let r' : Nociceptor = record r {
        total_signals = u32 (r.total_signals + 1);
        last_signal = s;
      } in
      let n₁ = record n {
        global_pain = u32 (n.global_pain + felt level r.sensitivity n.endorphin_level);
      } in
      let n₂ = if leb 4 (level_code level) then react_searing n₁ else n₁ in
      let n₃ = if leb 5 (level_code level) then react_agony n₂ else n₂ in
      record n₃ { nociceptors = set n₃.nociceptors source (adapt level r') }

-- `nociception_tick`
unfoldable pub tick : Nerves → Nerves
tick n =
    let ticks = u64 (n.pain_ticks + 1) in
    let pain = if ltb 0 n.global_pain then u32 (n.global_pain * 254) / 255 else n.global_pain in
    record n {
      pain_ticks = ticks;
      global_pain = pain;
      endorphin_level =
          if ltb 0 n.endorphin_level then n.endorphin_level - 1 else n.endorphin_level;
      marks = if ltb 5000 pain && ticks % 10000 == 0 then 1 ∷ n.marks else n.marks;
    }
