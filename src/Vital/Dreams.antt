-- ===== src/Vital/Dreams.antt =====
-- The dream simulator (vital-baremetal/src/dream_simulator.c): by night the organism plays through a
-- scenario that its scars choose, and keeps what it learns as experiences.
pub mod Night
mod Examples
use operating_organism.Prelude.{
  ltb, ◌==◌, if◌then◌else◌, u8, u32, u64, ℕ, zero, suc, ◌+◌, ◌-◌, ◌*◌, ◌/◌, ◌%◌, ◌^◌, bit_xor,
}
use operating_organism.Prelude.Int.{pos, negsuc}
use operating_organism.Vital.Epigenetics.{Epigenome, mark_experience}

-- `oo_dream_scenario_t`
pub data Scenario : Type 0 where
  threat_invasion memory_flood cpu_thermal_run kernel_corruption unknown_signal rebirth : Scenario

-- `oo_dream_result_t`
pub record Dream : Type 0 where
  pub scenario : Scenario
  pub duration_cycles : ℕ
  pub survival_rate : ℕ
  pub lessons_learned : ℕ

-- `sim_rng_state`
abbrev pub sim_seed : ℕ
sim_seed = 0xDEADBEEFCAFEBABE

-- `sim_rand`: the next state, which is also the number drawn.
unfoldable pub sim_rand : ℕ → ℕ
sim_rand s =
    let s₁ = bit_xor s (u64 (s * 2 ^ 13)) in
    let s₂ = bit_xor s₁ (s₁ / 2 ^ 7) in bit_xor s₂ (u64 (s₂ * 2 ^ 17))

abbrev pub severity : Scenario → ℕ
severity threat_invasion = 85
severity memory_flood = 70
severity cpu_thermal_run = 60
severity kernel_corruption = 95
severity unknown_signal = 50
severity rebirth = 100

abbrev pub base_survival : ℕ → Scenario → ℕ
base_survival bias s = if ltb 128 bias then u8 (100 - severity s / 2) else u8 (100 - severity s / 3)

-- `(uint8_t)(base + (entropy % 20) - 10)`, cut at 100.
abbrev pub survival : ℕ → ℕ → ℕ
survival base entropy =
    let rate = u8 (base + entropy % 20 + 256 - 10) in if ltb 100 rate then 100 else rate

-- `dream_simulate` with the state of the generator, which it moves on, and the personality.
unfoldable pub simulate : ℕ → ℕ → Scenario → ℕ × Dream
simulate rng bias s =
    let entropy = sim_rand rng in
    let rate = survival (base_survival bias s) entropy in
    (
      entropy,
      record {
        scenario = s;
        duration_cycles = u32 (u32 (entropy % 10000) + 1000);
        survival_rate = rate;
        lessons_learned = u8 (rate / 25);
      },
    )

-- `dream_select_scenario`
unfoldable pub select_scenario : ℕ → Scenario
select_scenario trauma_level =
    if ltb 200 trauma_level
    then rebirth
    else if ltb 150 trauma_level
    then kernel_corruption
    else if ltb 100 trauma_level
    then threat_invasion
    else if ltb 50 trauma_level
    then memory_flood
    else if ltb 20 trauma_level
    then cpu_thermal_run
    else unknown_signal

-- The loop of `dream_apply_lessons`, on the lessons left.
unfoldable pub learn : ℕ → Epigenome → ℕ → ℕ → Epigenome
learn zero m pulse rate = m
learn (suc left) m pulse rate =
    learn left (mark_experience m pulse (if ltb 70 rate then pos 1 else negsuc 0)) pulse rate

-- `dream_apply_lessons`
unfoldable pub apply_lessons : Epigenome → ℕ → Dream → Epigenome
apply_lessons m pulse d =
    if d.lessons_learned == 0 then m else learn d.lessons_learned m pulse d.survival_rate

-- The layer of the life loop that dreams, once its conditions on phase and pulse hold.
unfoldable pub night : ℕ → Epigenome → ℕ → ℕ × Epigenome × Dream
unfolding simulate apply_lessons
night rng m pulse =
    let bias = m.personality_bias in
    let (rng', dream) = simulate rng bias (select_scenario (255 - bias)) in
    (rng', apply_lessons m pulse dream, dream)
