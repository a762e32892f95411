-- ===== src/Network.antt =====
-- network-baremetal/src/respiration.c: the frames of the network that enter the bus.
pub mod Breath
use operating_organism.Prelude.{ltb, ◌==◌, if◌then◌else◌, u32, ℕ, ◌+◌, Bool, true, false}
use operating_organism.Bus.{GlobuleType, Globule, Bus, PumpResult, pumped, pump}

pub record Respiration : Type 0 where
  pub link_up : ℕ
  pub breath_rate : ℕ

-- `network_init`
unfoldable pub init : Respiration → Respiration
init r = record r { link_up = 1 }

-- The globule of a frame: a short one is control for the kernel, a long one is data for the cortex.
abbrev pub cell : ℕ → ℕ → Globule
cell frame size = record {
  globule_id = 0;
  type = if ltb size 64 then GlobuleType.yellow else GlobuleType.red;
  source_organ = 5;
  target_organ = if ltb size 64 then 3 else 0;
  payload_addr = frame;
  payload_size = u32 size;
}

abbrev pub is_pumped : PumpResult → Bool
is_pumped pumped = true
is_pumped _ = false

-- `network_inhale` of a frame at an address
unfoldable pub inhale : Respiration → Bus → ℕ → ℕ → Respiration × Bus
inhale r b frame size =
    if size == 0
    then (r, b)
    else let (b', result) = pump b (cell frame size) in
      (if is_pumped result then record r { breath_rate = u32 (r.breath_rate + 1) } else r, b')
