-- ===== src/Periphery/Sense.antt =====
-- The senses (sense-baremetal/src/retina_and_touch.c and include/sensory_receptors.h): what the
-- organism feels becomes red globules for the cortex. Memory is a function of the address.
pub mod Signals
use operating_organism.Prelude.{
  ◌==◌, if◌then◌else◌, u8, u16, u32, ℕ, zero, suc, ◌+◌, ◌*◌, ◌^◌, min, bit_or, Option, none, some,
}
use operating_organism.Bus.{
  GlobuleType, Globule, organ_cortex, organ_sensory, Bus, update, pump, broadcast_yellow,
}

-- `oo_stimulus_type_t`
pub data StimulusType : Type 0 where
  touch vision thermal auditory serial timer net : StimulusType

-- `oo_stimulus_t`, whose size is 32
pub record Stimulus : Type 0 where
  pub type : StimulusType
  pub intensity : ℕ
  pub timestamp : ℕ
  pub raw_data : ℕ → ℕ

abbrev stimulus_size : ℕ
stimulus_size = 32

-- The statics of the two transducers, the cells of the text screen, and the bus.
pub record Receptors : Type 0 where
  pub last_stimulus : Stimulus
  pub last_serial : Stimulus
  pub vga : ℕ → ℕ
  pub bus : Bus

-- A red globule of the senses to the cortex; its id is set by `pump`.
abbrev pub sensation : ℕ → ℕ → Globule
sensation addr size = record {
  globule_id = 0;
  type = GlobuleType.red;
  source_organ = organ_sensory;
  target_organ = organ_cortex;
  payload_addr = addr;
  payload_size = size;
}

-- `sense_transduce_keystroke`; the static stands at the address `addr`.
unfoldable transduce_keystroke : Receptors → ℕ → ℕ → Receptors
transduce_keystroke s addr scancode = record s {
  last_stimulus = record {
    type = touch;
    intensity = 100;
    timestamp = 0;
    raw_data = update s.last_stimulus.raw_data 0 scancode;
  };
  bus = (pump s.bus (sensation addr stimulus_size)).0;
}

-- A loop that writes `n` values from index `i` on.
pub write_loop : ℕ → (ℕ → ℕ) → ℕ → (ℕ → ℕ) → ℕ → ℕ
write_loop zero value i cells = cells
write_loop (suc n) value i cells = write_loop n value (i + 1) (update cells i (value i))

-- White on black: `(attr << 8) | (uint8_t)c`
abbrev cell_of : ℕ → ℕ
cell_of c = u16 (bit_or (0x0F * 2 ^ 8) (u8 c))

-- `sense_update_retina`; `none` is the null pointer.
unfoldable pub update_retina : Receptors → Option (ℕ → ℕ) → ℕ → Receptors
unfolding write_loop
update_retina s none size = s
update_retina s (some visual_buffer) size = if size == 0 then s else record s {
  vga = write_loop (min size 2000) (λ i. cell_of (visual_buffer i)) 0 s.vga;
  bus = (pump s.bus (sensation 0 size)).0;
}

-- `sense_transduce_serial`
unfoldable transduce_serial : Receptors → (ℕ → ℕ) → ℕ → Receptors
unfolding write_loop
transduce_serial s data_ len = record s {
  last_serial = record {
    type = serial;
    intensity = 100;
    timestamp = 0;
    raw_data = write_loop (min len 16) (λ i. u8 (data_ i)) 0 s.last_serial.raw_data;
  };
  bus = (pump s.bus (sensation 0 len)).0;
}

-- `sense_transduce_timer`
unfoldable transduce_timer : Receptors → ℕ → Receptors
transduce_timer s tick = record s { bus = (broadcast_yellow s.bus organ_sensory (u32 tick)).0 }
