-- ===== src/Vital/Regulator.antt =====
-- vital-baremetal/src/homeostasis_regulator.c: the parameters that are kept in the zone of life.
pub mod Settling
use operating_organism.Prelude.{
  ltb, leb, ◌==◌, if◌then◌else◌, u32, sub_u32, ℕ, ◌+◌, ◌-◌, Bool, ◌&&◌,
}
use operating_organism.Bus.{GlobuleType, Globule, Bus, pump}

pub record VitalParam : Type 0 where
  pub value : ℕ
  pub target : ℕ
  pub min_viable : ℕ
  pub max_viable : ℕ
  pub correction_rate : ℕ

abbrev pub param : ℕ → ℕ → ℕ → ℕ → ℕ → VitalParam
param v t lo hi rate = record {
  value = v;
  target = t;
  min_viable = lo;
  max_viable = hi;
  correction_rate = rate;
}

pub record Board : Type 0 where
  pub cpu_temperature : VitalParam
  pub tension_yin_yang : VitalParam
  pub immune_load : VitalParam
  pub cortex_activity : VitalParam
  pub pulse_frequency : VitalParam
  pub entropy_level : VitalParam
  pub synaptic_weight : VitalParam
  pub epigenetic_bias : VitalParam

-- `homeostasis_init`
unfoldable pub initial : Board
initial = record {
  cpu_temperature = param 55 55 0 95 3;
  tension_yin_yang = param 128 128 10 245 2;
  immune_load = param 20 20 0 80 5;
  cortex_activity = param 50 50 0 100 1;
  pulse_frequency = param 60 60 1 1000 4;
  entropy_level = param 70 70 5 100 3;
  synaptic_weight = param 50 50 0 255 1;
  epigenetic_bias = param 128 128 0 255 1;
}

-- The two tests of the bounds, in their order.
abbrev pub clamp : VitalParam → VitalParam
clamp p =
    let q = record p { value = if ltb p.value p.min_viable then p.min_viable else p.value } in
    record q { value = if ltb q.max_viable q.value then q.max_viable else q.value }

-- The amount of a correction: the rate, or the whole error if that is smaller.
abbrev pub amount : ℕ → ℕ → ℕ
amount rate error = if ltb rate error then rate else error

-- `regulate_param`, for a value and a target below 2^31, where the signed difference is exact.
unfoldable pub regulate_param : VitalParam → VitalParam
regulate_param p =
    if p.value == p.target
    then p
    else clamp (record p {
      value =
          if ltb p.value p.target
          then u32 (p.value + amount p.correction_rate (p.target - p.value))
          else sub_u32 p.value (amount p.correction_rate (p.value - p.target));
    })

pub data Force : Type 0 where
  yin yang : Force

-- `homeostasis_regulate`: the new board, the force given to `vital_shift_balance` with weight 1, and
-- the bus. The alert has fields that no code sets; they are those of `junk`, the stack's content.
unfoldable pub regulate : Board → Bus → Globule → Board × Force × Bus
regulate b₀ bus junk =
    let b : Board = record {
      cpu_temperature = regulate_param b₀.cpu_temperature;
      tension_yin_yang = regulate_param b₀.tension_yin_yang;
      immune_load = regulate_param b₀.immune_load;
      cortex_activity = regulate_param b₀.cortex_activity;
      pulse_frequency = regulate_param b₀.pulse_frequency;
      entropy_level = regulate_param b₀.entropy_level;
      synaptic_weight = regulate_param b₀.synaptic_weight;
      epigenetic_bias = regulate_param b₀.epigenetic_bias;
    } in
    (
      b,
      if ltb 128 b.tension_yin_yang.value then yin else yang,
      if leb b.immune_load.max_viable b.immune_load.value
          then (pump bus (record junk { type = GlobuleType.white; target_organ = 255 })).0
          else bus,
    )

-- `homeostasis_inject`
unfoldable inject : VitalParam → ℕ → VitalParam
inject p v = clamp (record p { value = v })

-- `homeostasis_is_viable`
unfoldable pub is_viable : Board → Bool
is_viable b =
    ltb b.cpu_temperature.value b.cpu_temperature.max_viable
    && (ltb b.immune_load.value b.immune_load.max_viable
        && (ltb b.pulse_frequency.min_viable b.pulse_frequency.value
            && ltb b.entropy_level.min_viable b.entropy_level.value))
