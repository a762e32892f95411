-- ===== src/Periphery/Reflex.antt =====
-- The spinal cord (reflex-baremetal/src/spinal_cord.c and include/nervous_system.h): a table of
-- actions by the interrupt's vector.
pub mod Counts
use operating_organism.Prelude.{ltb, if◌then◌else◌, u32, ℕ, ◌+◌, Option, none, some}
use operating_organism.Bus.{
  GlobuleType, Bus, update, pump, signal, broadcast_yellow, broadcast_white,
}

-- `OO_REFLEX_PAIN`, `OO_REFLEX_WATCHDOG`, `OO_REFLEX_THERMAL` and `ORGAN_REFLEX_SOURCE`
abbrev pub reflex_pain : ℕ
reflex_pain = 2

abbrev pub reflex_watchdog : ℕ
reflex_watchdog = 3

abbrev pub reflex_thermal : ℕ
reflex_thermal = 4

abbrev pub organ_reflex : ℕ
organ_reflex = 8

-- What a vector may be bound to: the two actions of the file, or another, by what it does to the bus.
pub data Action : Type 0 where
  on_pain on_thermal_burn : Action
  foreign : (Bus → Bus) → Action

-- The statics, the bus, and how often the processor has been halted.
pub record SpinalCord : Type 0 where
  pub reflex_table : ℕ → Option Action
  pub armed_count : ℕ
  pub triggered_count : ℕ
  pub last_vector : ℕ
  pub watchdog_counter : ℕ
  pub bus : Bus
  pub halts : ℕ

-- `reflex_on_thermal_burn`; its globule is that of a broadcast in yellow.
abbrev thermal_burn : SpinalCord → SpinalCord
thermal_burn c = record c {
  bus = (pump c.bus (signal GlobuleType.yellow organ_reflex reflex_thermal)).0;
}

-- `reflex_on_pain`
abbrev pub pain : SpinalCord → SpinalCord
pain c = record c { bus = (broadcast_white c.bus organ_reflex 0x01).0; halts = c.halts + 1 }

-- The call of an action.
abbrev pub perform : SpinalCord → Action → SpinalCord
perform c on_pain = pain c
perform c on_thermal_burn = thermal_burn c
perform c (foreign act) = record c { bus = act c.bus }

-- `reflex_bind_action`
abbrev bind_action : SpinalCord → ℕ → Action → SpinalCord
bind_action c vector action = record c { reflex_table = update c.reflex_table vector (some action) }

-- `reflex_init`
unfoldable pub init : SpinalCord → SpinalCord
init c =
    let c₁ = record c { reflex_table = λ i. if ltb i 256 then none else c.reflex_table i } in
    let c₂ = bind_action c₁ reflex_pain on_pain in
    let c₃ = bind_action c₂ reflex_watchdog on_thermal_burn in
    record (bind_action c₃ reflex_thermal on_thermal_burn) { armed_count = 3 }

-- `reflex_trigger`
unfoldable pub trigger : SpinalCord → ℕ → SpinalCord
trigger c vector = elim (c.reflex_table vector) [
  | none ↦ c
  | some action ↦
      perform (record c { last_vector = vector; triggered_count = u32 (c.triggered_count + 1) })
        action
]

-- `reflex_watchdog_kick`
abbrev watchdog_kick : SpinalCord → SpinalCord
watchdog_kick c = record c { watchdog_counter = 0 }

-- `reflex_thermal_check`
unfoldable thermal_check : SpinalCord → ℕ → SpinalCord
thermal_check c temp_celsius =
    if ltb 85 temp_celsius
    then (let c₁ = record c { bus = (broadcast_white c.bus organ_reflex reflex_thermal).0 } in
        let c₂ = record c₁ { bus = (broadcast_yellow c₁.bus organ_reflex 0xA0FE0001).0 } in
        thermal_burn c₂)
    else c
