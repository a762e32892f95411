-- ===== src/Periphery/Examples.antt =====
-- The theorems of the organs at the edge of the body, at concrete states.
use operating_organism.Prelude.{
  ◌==◌, if◌then◌else◌, get_or, u32, ℕ, ◌+◌, ◌-◌, ◌^◌, ◌≤◌, ◌<◌, ◌≡◌, refl, ◌↔◌, ◌⊎◌, true, false,
  none, some, [], ◌∷◌, arith,
}
use operating_organism.Bus.{GlobuleType, Globule, Bus, signal}
use operating_organism.Periphery.Reflex.{SpinalCord}
use operating_organism.Periphery.Reflex.Counts.{
  interrupts, armed_among, pained_among, interrupts_lem,
}
use operating_organism.Periphery.Sense.{touch, Stimulus, Receptors}
use operating_organism.Periphery.Sleep.{dream_organ, Sleeper, dream_round}
use operating_organism.Periphery.Sleep.Nights.{asleep_after, evenings, dream_round_lem}
use operating_organism.Periphery.Repair.{hotpatch}
use operating_organism.Periphery.Repair.Jump.{step, is_near, hotpatch_lem}
use operating_organism.Periphery.Vocal.{emit_tone}
use operating_organism.Periphery.Vocal.Pitch.{period, writes, emit_tone_lem}
use operating_organism.Bus.Absorb.{pending}
use operating_organism.Bus as Bus
use operating_organism.Periphery.Reflex as Reflex

abbrev zero_globule : Globule
zero_globule = signal GlobuleType.red 6 0

abbrev blood : Bus
blood = Bus.boot zero_globule

abbrev cord : SpinalCord
cord = record {
  reflex_table = λ i. none;
  armed_count = 0;
  triggered_count = 2 ^ 32 - 2;
  last_vector = 0;
  watchdog_counter = 0;
  bus = blood;
  halts = 0;
}

-- Pain, a vector that is free, heat, and pain again: the count of the triggered reflexes wraps.
interrupts_example :
    let c' = interrupts (Reflex.init cord) (2 ∷ 7 ∷ 4 ∷ 2 ∷ []) in
    (c'.triggered_count ≡ 1)
    × (c'.bus.total_pumps ≡ 3)
    × (c'.halts ≡ 2)
    × (c' ≡ interrupts (Reflex.init cord) (2 ∷ 4 ∷ 2 ∷ []))
unfolding armed_among pained_among
interrupts_example =
    interrupts_lem cord (2 ∷ 7 ∷ 4 ∷ 2 ∷ []) (omega arith) (omega arith)
      (omega arith, (omega arith, (omega arith, (omega arith, tt))))

abbrev still : Stimulus
still = record { type = touch; intensity = 0; timestamp = 0; raw_data = λ i. 0 }

abbrev receptors : Receptors
receptors = record { last_stimulus = still; last_serial = still; vga = λ i. 0; bus = blood }

-- Two yellow globules, at addresses of an active and of a relaxed state.
abbrev evening : Bus
evening = record blood {
  blood_stream =
      λ i. record (signal GlobuleType.yellow 3 0) { payload_addr = if i == 0 then 64 else 128 };
  heart_systole = 2;
}

evening-IsValid : Bus.Invariant.IsValid evening
evening-IsValid = record {
  cap_min = omega arith;
  cap_max = omega arith;
  systole_in = omega arith;
  diastole_in = omega arith;
  heads_count = refl;
  heads_in = (Bus.Invariant.boot-IsValid zero_globule).heads_in;
}

dream_round_example :
    (b' : Bus) × (d' : Sleeper) × (dream_round 1025
        (λ a. if a == 64 then 3 else 0)
        evening
        (record { is_sleeping = false; learnings = 5 })
      ≡ some (b', d'))
    × (d'.is_sleeping ≡ true)
    × (d'.learnings ≡ 6)
    × (pending b' dream_organ (get_or b'.organ_read_heads dream_organ 0) ≡ [])
unfolding asleep_after evenings
dream_round_example =
    dream_round_lem (λ a. if a == 64 then 3 else 0) evening
      (record { is_sleeping = false; learnings = 5 }) evening-IsValid (omega arith) (omega arith)

-- A jump backwards.
hotpatch_example :
    let patched = hotpatch (λ a. 0x90) 0x400000 0x3FF000 in
    (landing : ℕ) × (step patched 0x400000 ≡ some landing)
    × (u32 landing ≡ u32 0x3FF000)
    × ((landing ≡ 0x3FF000) ↔ (is_near 0x400000 0x3FF000 ≡ true))
    × ((a : ℕ) → a < 0x400000 ⊎ 0x400000 + 5 ≤ a → patched a ≡ 0x90)
hotpatch_example = hotpatch_lem (λ a. 0x90) 0x400000 0x3FF000 (omega arith) (omega arith)

emit_tone_example :
    let t' = writes (record { is_high = true; low = 7; divisor = 9 }) (emit_tone 880 0) in
    (t'.divisor ≡ 1355)
    × ((period t' ≡ 1355) ↔ ((19 ≤ 880) × (880 ≤ 1193180)))
    × (1193180 < 880 → period t' ≡ 65536)
emit_tone_example =
    emit_tone_lem (record { is_high = true; low = 7; divisor = 9 }) 880 0 (omega arith)
