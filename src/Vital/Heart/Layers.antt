-- ===== src/Vital/Heart/Layers.antt =====
-- The layers of `vital_eternal_heartbeat` (vital-baremetal/src/life_loop.c) from the clock to the
-- dreams, and the noise of src/biotic_entropy.c.
use operating_organism.Vital.Nociception as Nociception
use operating_organism.Vital.Metabolism as Metabolism
use operating_organism.Vital.Consciousness as Consciousness
use operating_organism.Prelude.{
  ltb, leb, ◌==◌, if◌then◌else◌, u8, u32, u64, sub_u64, ℕ, ◌+◌, ◌*◌, ◌%◌, bit_and, Bool, true,
  false, ◌&&◌, List, [], ◌∷◌,
}
use operating_organism.Prelude.Int.{pos, negsuc, ◌+ℤ◌}
use operating_organism.Vital.Regulator.{yin, yang, regulate, is_viable}
use operating_organism.Vital.Spark.{shift_balance}
use operating_organism.Vital.Consciousness.{
  State, dreaming, aware, focused, state_code, said, organ_vital, transition,
}
use operating_organism.Vital.Nociception.{searing, agony_felt}
use operating_organism.Vital.Metabolism.{Metabolism, is_starving}
use operating_organism.Vital.Dreams.{night}
use operating_organism.Vital.Pineal.{sync}
use operating_organism.Vital.Heart.{
  Phase, dawn, zenith, dusk, nadir, next_phase, phase_duration, Life, node_pain, node_energy,
  node_consciousness, node_entropy, node_dream, node_guardian, node_homeostasis, excite, settle,
  with_nerves, with_mind, with_bus, no_receptor, hurts,
}
use operating_organism.Bus.{GlobuleType, Globule, pump, signal}

-- What the assembly, the Rust parts, the ports and the memory answer in one beat: the jitter of the
-- steel tick, the clock's registers, the guardian's state, the random number, whether the vault
-- verifies, the memory that a payload's address points into, and a globule with what the stack holds
-- in fields that are not set.
pub record Senses : Type 0 where
  pub jitter : ℕ
  pub rtc_hours : ℕ
  pub rtc_reg_b : ℕ
  pub guardian : ℕ
  pub entropy : ℕ
  pub is_verified : Bool
  pub memory : ℕ → ℕ
  pub junk : Globule

-- `vital_steel_tick`, of vital_beat.asm.
abbrev pub steel_tick : Life → Senses → Life
steel_tick l s = record l {
  spark = record (l.spark) {
    pulse_count = u64 (l.spark.pulse_count + 1);
    jitter = u64 (l.spark.jitter + s.jitter);
  };
}

abbrev asks : Life → State → List ℕ → Life
asks l target reason =
    with_mind l (transition l.metabolism.nerves.mind target organ_vital (said reason)).0

-- The switch at the start of a phase; the reasons are "Dawn", "Zenith", "Dusk" and "Nadir".
abbrev pub enter_phase : Phase → Life → Life
enter_phase dawn l =
    let l' = asks l aware (68 ∷ 97 ∷ 119 ∷ 110 ∷ []) in
    record l' { spark = record (l'.spark) { current_force = yang } }
enter_phase zenith l = asks l focused (90 ∷ 101 ∷ 110 ∷ 105 ∷ 116 ∷ 104 ∷ [])
enter_phase dusk l = asks l aware (68 ∷ 117 ∷ 115 ∷ 107 ∷ [])
enter_phase nadir l =
    let l' = asks l dreaming (78 ∷ 97 ∷ 100 ∷ 105 ∷ 114 ∷ []) in
    record l' {
      spark = record (l'.spark) { current_force = yin; age_cycles = u8 (l'.spark.age_cycles + 1) };
    }

-- Layer 1, the circadian rhythm.
unfoldable pub circadian : Life → Senses → Life
circadian l s =
    if ltb (sub_u64 l.spark.pulse_count l.phase_start) phase_duration
    then l
    else let phase = next_phase l.phase in
      let l₁ = record l { phase_start = l.spark.pulse_count; phase = phase } in
      let l₂ = enter_phase phase l₁ in record l₂ { spark = sync l₂.spark s.rtc_hours s.rtc_reg_b }

-- Layer 2, pain.
unfoldable pub feel : Life → Life
feel l =
    let l₁ = with_nerves l (Nociception.tick l.metabolism.nerves) in
    let pain = l₁.metabolism.nerves.global_pain in
    excite l₁ node_pain (pos (if ltb 127 pain then 127 else pain))

-- Layer 3, energy.
unfoldable pub feed : Life → Life
feed l =
    let l₁ = settle l (Metabolism.tick no_receptor l.metabolism) in
    if is_starving l₁.metabolism
    then (let l₂ = excite l₁ node_energy (pos 100) in
        record l₂ { spark = shift_balance l₂.spark yin 20 })
    else l₁

-- `homeostasis_regulate`, which calls `vital_shift_balance` and the bus.
unfoldable pub regulated : Life → Senses → Life
regulated l s =
    let (board, force, bus) = regulate l.board l.metabolism.nerves.mind.bus s.junk in
    let l₁ = record l { board = board; spark = shift_balance l.spark force 1 } in with_bus l₁ bus

-- Layer 4, homeostasis; true if the layer ends in `vital_ouroboros_panic`, which does not return.
unfoldable pub balance : Life → Senses → Life × Bool
unfolding regulated
balance l s =
    let l₁ = regulated l s in
    if is_viable l₁.board
    then (l₁, false)
    else (let l₂ = excite (hurts l₁ 0 agony_felt 0xDEAD0001) node_homeostasis (pos 120) in
        (l₂, is_starving l₂.metabolism && ltb 200 l₂.spark.tension))

-- Layer 5, consciousness.
unfoldable pub think : Life → Life
think l =
    let l₁ = with_mind l (Consciousness.tick l.metabolism.nerves.mind) in
    excite l₁ node_consciousness (pos (state_code l₁.metabolism.nerves.mind.current_state * 10))

-- Layer 6, the guardian.
unfoldable pub guard : Life → Senses → Life
guard l s =
    if leb 1 s.guardian
    then (let l₁ = excite l node_guardian (pos (s.guardian * 50)) in
        if s.guardian == 2 then hurts l₁ 4 searing 0xBAD00002 else l₁)
    else l

-- `vital_generate_biotic_noise`; the payload is the address, here 0, of the number, of 8 bytes.
unfoldable pub biotic_noise : Life → ℕ → Life
biotic_noise l entropy =
    let l₁ =
      if ltb 200 (entropy % 256)
      then with_bus l
          (pump l.metabolism.nerves.mind.bus
            (record (signal GlobuleType.yellow 15 8) { target_organ = 10 })).0
      else l in
    if ltb (u32 (l₁.yin_weight * 2)) l₁.yang_weight
    then record l₁ { yin_weight = u32 (l₁.yin_weight + 100) }
    else l₁

-- Layer 7, entropy.
unfoldable pub stir : Life → Senses → Life
unfolding biotic_noise
stir l s =
    excite (biotic_noise l s.entropy) node_entropy (pos (bit_and s.entropy 0x3F) +ℤ negsuc 31)

abbrev is_nadir : Phase → Bool
is_nadir nadir = true
is_nadir _ = false

-- Layer 8, the dreams.
unfoldable pub dream : Life → Life
dream l =
    if is_nadir l.phase && l.spark.pulse_count % 1000 == 0
    then (let (rng, epigenome, d) = night l.rng l.epigenome l.spark.pulse_count in
        excite (record l { rng = rng; epigenome = epigenome }) node_dream (pos d.survival_rate))
    else l
