-- ===== src/Periphery/Sleep.antt =====
-- The sleep (dream-baremetal/src/dream_daemon.c): what the dream organ does in a round of its loop.
pub mod Nights
use operating_organism.Prelude.{
  ◌==◌, if◌then◌else◌, u8, ℕ, ◌+◌, Bool, true, false, Option, none, some, List, [], ◌∷◌,
}
use operating_organism.Bus.{GlobuleType, Globule, Bus, absorb}

-- `DREAM_ORGAN_ID`, and the size of the inbox
abbrev pub dream_organ : ℕ
dream_organ = 7

abbrev pub inbox_size : ℕ
inbox_size = 10

-- The static, and how often the sleep learning has been triggered.
pub record Sleeper : Type 0 where
  pub is_sleeping : Bool
  pub learnings : ℕ

abbrev pub is_yellow : Globule → Bool
is_yellow g = elim g.type [
  | GlobuleType.red ↦ false
  | GlobuleType.white ↦ false
  | GlobuleType.yellow ↦ true
  | GlobuleType.gold ↦ false
  | GlobuleType.silver ↦ false
  | GlobuleType.purple ↦ false
]

-- A state that has been heard: 0 is `OO_STATE_RELAXED`.
unfoldable pub hear_state : Sleeper → ℕ → Sleeper
hear_state d state =
    if state == 0
    then (if d.is_sleeping then d else record { is_sleeping = true; learnings = d.learnings + 1 })
    else record d { is_sleeping = false }

-- The loop over the inbox; `memory` is what stands at an address.
unfoldable pub hear_inbox : (ℕ → ℕ) → Sleeper → List Globule → Sleeper
unfolding hear_state
hear_inbox memory d [] = d
hear_inbox memory d (g ∷ inbox) =
    hear_inbox memory (if is_yellow g then hear_state d (u8 (memory g.payload_addr)) else d) inbox

-- A round of `dream_baremetal_loop`, with the rounds that the absorb may take; `none`: these ran out.
unfoldable pub dream_round : ℕ → (ℕ → ℕ) → Bus → Sleeper → Option (Bus × Sleeper)
unfolding hear_inbox
dream_round fuel memory b d = elim (absorb fuel b dream_organ inbox_size) [
  | none ↦ none
  | some (b', inbox) ↦ some (b', hear_inbox memory d inbox)
]
