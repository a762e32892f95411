-- ===== src/Vital/Spark.antt =====
-- The vital spark (vital-baremetal/include/vital_spark.h) and how the tension is moved from outside
-- (the last part of src/life_loop.c), with the aura that src/aura_visualizer.c draws of it.
use operating_organism.Prelude.{ltb, if◌then◌else◌, u8, ℕ, ◌+◌, ◌-◌, ◌/◌, ◌<◌, arith}
use operating_organism.Vital.Regulator.{Force, yin, yang}

-- `oo_vital_spark_t`
pub record Spark : Type 0 where
  pub current_force : Force
  pub tension : ℕ
  pub pulse_count : ℕ
  pub jitter : ℕ
  pub birth_timestamp : ℕ
  pub age_cycles : ℕ

-- `vital_shift_balance`
unfoldable pub shift_balance : Spark → Force → ℕ → Spark
shift_balance s yang weight = record s {
  tension = if ltb weight s.tension then s.tension - weight else 0;
}
shift_balance s yin weight = record s {
  tension = if ltb s.tension (255 - weight) then s.tension + weight else 255;
}

-- `oo_aura_t` and the wave that `vital_update_aura` moves on.
pub record Aura : Type 0 where
  pub r : ℕ
  pub g : ℕ
  pub b : ℕ
  pub pulse_intensity : ℕ
  pub sine_wave : ℕ

-- `vital_update_aura`
unfoldable pub update_aura : Aura → ℕ → Force → Aura
update_aura a tension yang =
    let wave = u8 (a.sine_wave + 5) in
    record { r = tension; g = tension; b = 255; pulse_intensity = wave; sine_wave = wave }
update_aura a tension yin =
    let wave = u8 (a.sine_wave + 5) in
    record { r = 128 - tension / 2; g = 0; b = tension; pulse_intensity = wave; sine_wave = wave }

-- `vital_emit_distress_beacon`
abbrev pub emit_distress_beacon : Aura → Aura
emit_distress_beacon a = record a { r = 255; g = 0; b = 0 }

-- The tension stays a byte, whatever the weight.
pub shift_balance_small :
    (s : Spark) (f : Force) (weight : ℕ)
    → s.tension < 256
    → (shift_balance s f weight).tension < 256
unfolding shift_balance
shift_balance_small s yang weight h = ground (arith, h)
shift_balance_small s yin weight h = ground (arith, h)
