-- ===== src/Vital/Epigenetics.antt =====
-- The epigenetic memory (vital-baremetal/src/epigenetics.c): what happened to the organism, and how
-- it changed its personality, under a checksum that is to show a corrupted journal.
pub mod Life
pub mod Reboot
use operating_organism.Prelude.{
  ltb, ◌==◌, if◌then◌else◌, u8, u32, ℕ, zero, suc, ◌+◌, ◌-◌, ◌*◌, ◌/◌, ◌%◌, bit_xor, ◌&&◌, Option,
  none, some,
}
use operating_organism.Prelude.Int.{ℤ, pos, negsuc}

-- `oo_epigenetic_event_t`
pub record Event : Type 0 where
  pub pulse_at : ℕ
  pub impact : ℤ
  pub source_organ : ℕ

abbrev max_epigenetic_events : ℕ
max_epigenetic_events = 256

-- `oo_epigenetic_memory_t`. The journal is a function of the index.
pub record Epigenome : Type 0 where
  pub trauma_level : ℕ
  pub success_count : ℕ
  pub total_experiences : ℕ
  pub personality_bias : ℕ
  pub resilience : ℕ
  pub generation : ℕ
  pub events : ℕ → Event
  pub event_head : ℕ
  pub checksum : ℕ

-- `compute_epigenetic_checksum`
unfoldable pub checksum_of : Epigenome → ℕ
checksum_of m =
    let s₁ = bit_xor 0x12345678 m.trauma_level in
    let s₂ = bit_xor s₁ m.success_count in
    let s₃ = bit_xor s₂ m.total_experiences in
    let s₄ = bit_xor s₃ m.personality_bias in
    let s₅ = bit_xor s₄ m.resilience in bit_xor s₅ m.generation

-- The last statement of the operations that change the counters.
abbrev pub seal : Epigenome → Epigenome
seal m = record m { checksum = checksum_of m }

-- The branch of a first birth. The events are left where they are.
abbrev pub blank : Epigenome → Epigenome
blank m = seal (record m {
  trauma_level = 0;
  success_count = 0;
  total_experiences = 0;
  personality_bias = 128;
  resilience = 50;
  generation = 1;
  event_head = 0;
})

-- `vital_epigenetic_init`. On the first branch the checksum is left as it is.
unfoldable pub init : Epigenome → Epigenome
init m =
    if m.checksum == checksum_of m && ltb 0 m.total_experiences
    then record m { generation = u8 (m.generation + 1) }
    else blank m

-- The write into the journal.
abbrev update : (ℕ → Event) → ℕ → Event → ℕ → Event
update f i e j = if i == j then e else f j

abbrev record_event : Epigenome → ℕ → ℤ → Epigenome
record_event m pulse impact = record m {
  events =
      update m.events m.event_head (record { pulse_at = pulse; impact = impact; source_organ = 0 });
  event_head = (m.event_head + 1) % max_epigenetic_events;
  total_experiences = u32 (m.total_experiences + 1);
}

-- How much a trauma takes from the bias.
abbrev pub effective_impact : ℕ → ℕ
effective_impact resilience = if ltb (resilience / 25) 5 then 5 - resilience / 25 else 1

abbrev hurt : Epigenome → Epigenome
hurt m =
    let effective = effective_impact m.resilience in
    record m {
      trauma_level = u32 (m.trauma_level + 1);
      personality_bias =
          if ltb effective m.personality_bias
          then m.personality_bias - effective
          else m.personality_bias;
      resilience = if ltb m.resilience 250 then m.resilience + 1 else m.resilience;
    }

abbrev reward : Epigenome → Epigenome
reward m = record m {
  success_count = u32 (m.success_count + 1);
  personality_bias =
      if ltb m.personality_bias 250 then m.personality_bias + 3 else m.personality_bias;
}

-- The branches of `impact < 0` and `impact > 0`.
abbrev digest_impact : Epigenome → ℤ → Epigenome
digest_impact m (negsuc n) = hurt m
digest_impact m (pos zero) = m
digest_impact m (pos (suc n)) = reward m

-- `vital_mark_experience`, with what `vital_get_pulse_count` gives.
unfoldable pub mark_experience : Epigenome → ℕ → ℤ → Epigenome
mark_experience m pulse impact = seal (digest_impact (record_event m pulse impact) impact)

-- `vital_get_success_ratio`
unfoldable pub get_success_ratio : Epigenome → ℕ
get_success_ratio m =
    if m.total_experiences == 0 then 50 else u8 (u32 (m.success_count * 100) / m.total_experiences)

-- `sizeof(oo_epigenetic_memory_t)`: 256 events of 16 bytes, and 24 bytes around them.
abbrev epigenome_size : ℕ
epigenome_size = 256 * 16 + 24

-- `vital_epigenetic_export`: the copy that goes to the buffer, if one is made.
unfoldable pub export_to : Epigenome → ℕ → Epigenome × Option Epigenome
export_to m max_size = if ltb max_size epigenome_size then (m, none) else (seal m, some (seal m))

-- `vital_epigenetic_import` of a buffer that holds the bytes of `src`.
unfoldable pub import_from : Epigenome → Epigenome → ℕ → Epigenome
unfolding init
import_from m src size =
    if ltb size epigenome_size then m else if src.checksum == checksum_of src then src else init src
