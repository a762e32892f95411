-- ===== src/Bus.antt =====
-- The united bus (united-baremetal/src/united_bus.c and include/united_bus.h): the ring of globules
-- that the organs share. The static variables are the fields of `Bus`; a function that changes them
-- returns the new bus beside its result.
pub mod Invariant
pub mod Pump
pub mod Absorb
pub mod Delivery
pub mod Limits
pub mod Collect
mod Examples
use operating_organism.Prelude.{
  ℕ, zero, suc, ◌+◌, ◌-◌, ◌%◌, ◌≡◌, Bool, true, false, ◌&&◌, ◌||◌, not, Option, none, some, List,
  [], ◌∷◌, ◌++◌, map, ltb, leb, ◌==◌, if◌then◌else◌, length, get_or, set, replicate, u32, sub_u32,
}

-- `globule_type_t`
pub data GlobuleType : Type 0 where
  red white yellow gold silver purple : GlobuleType

-- `globule_t`
pub record Globule : Type 0 where
  pub globule_id : ℕ
  pub type : GlobuleType
  pub source_organ : ℕ
  pub target_organ : ℕ
  pub payload_addr : ℕ
  pub payload_size : ℕ

abbrev pub blood_volume : ℕ
blood_volume = 2048

abbrev pub base_capacity : ℕ
base_capacity = 1024

abbrev pub max_organs : ℕ
max_organs = 16

-- `ORGAN_CORTEX`, `ORGAN_SENSORY` and `ORGAN_BROADCAST` of `organ_id_t`
abbrev pub organ_cortex : ℕ
organ_cortex = 0

abbrev pub organ_sensory : ℕ
organ_sensory = 4

abbrev organ_broadcast : ℕ
organ_broadcast = 255

-- The static state. `blood_stream` is the array of `blood_volume` globules, by its index.
pub record Bus : Type 0 where
  pub blood_stream : ℕ → Globule
  pub current_capacity : ℕ
  pub heart_systole : ℕ
  pub heart_diastole : ℕ
  pub drops : ℕ
  pub total_pumps : ℕ
  pub organ_read_heads : List ℕ
  pub next_globule_id : ℕ

-- The state of a program before its first call: zeroed memory and the initialisers of the file.
abbrev pub boot : Globule → Bus
boot g = record {
  blood_stream = λ i. g;
  current_capacity = base_capacity;
  heart_systole = 0;
  heart_diastole = 0;
  drops = 0;
  total_pumps = 0;
  organ_read_heads = replicate max_organs 0;
  next_globule_id = 1;
}

-- `united_bus_init`: the capacity, the counters and the stream keep what they held.
unfoldable pub init : Bus → Bus
init b = record b {
  heart_systole = 0;
  heart_diastole = 0;
  organ_read_heads = map (λ h. 0) b.organ_read_heads;
}

-- The result of `united_bus_pump`: 0, -1 and -2.
pub data PumpResult : Type 0 where
  pumped congested filtered : PumpResult

abbrev is_white : GlobuleType → Bool
is_white GlobuleType.white = true
is_white _ = false

abbrev pub is_priority : GlobuleType → Bool
is_priority GlobuleType.white = true
is_priority GlobuleType.yellow = true
is_priority _ = false

abbrev pub is_red : GlobuleType → Bool
is_red GlobuleType.red = true
is_red _ = false

abbrev pub update {ℓ} : {A : Type ℓ} → (ℕ → A) → ℕ → A → ℕ → A
update f i v j = if j == i then v else f j

-- The index after `i` in the ring as it is sized now.
abbrev pub next_index : Bus → ℕ → ℕ
next_index b i = u32 (i + 1) % b.current_capacity

-- Room is made for a priority globule: the oldest is given up, and a head that stands at the
-- write position moves on to the new oldest.
abbrev pub evict : Bus → Bus
evict b =
    let d = next_index b b.heart_diastole in
    record b {
      heart_diastole = d;
      organ_read_heads = map (λ h. if h == b.heart_systole then d else h) b.organ_read_heads;
    }

-- The capacity after a globule of this type was let through.
abbrev pub dilate : GlobuleType → ℕ → ℕ
dilate t cap = if is_white t then blood_volume else if ltb base_capacity cap then cap - 1 else cap

-- The barrier before the cortex, and the write. `next` is the write position after this one.
abbrev pub admit : Bus → ℕ → Globule → Bus × PumpResult
admit b next g =
    if g.target_organ == organ_cortex && (is_red g.type && not (g.source_organ == organ_sensory))
    then (record b { drops = u32 (b.drops + 1) }, filtered)
    else (
      record b {
        current_capacity = dilate g.type b.current_capacity;
        next_globule_id = u32 (b.next_globule_id + 1);
        blood_stream =
            update b.blood_stream b.heart_systole (record g { globule_id = b.next_globule_id });
        heart_systole = next;
      },
      pumped,
    )

-- `united_bus_pump`
unfoldable pub pump : Bus → Globule → Bus × PumpResult
pump b₀ g =
    let b = record b₀ { total_pumps = u32 (b₀.total_pumps + 1) } in
    let next = next_index b b.heart_systole in
    if next == b.heart_diastole
    then (if is_priority g.type
        then admit (evict b) next g
        else (record b { drops = u32 (b.drops + 1) }, congested))
    else admit b next g

-- A globule is for an organ if it is broadcast, or if the organ is its target.
abbrev pub is_for : ℕ → Globule → Bool
is_for organ g = g.target_organ == organ_broadcast || g.target_organ == organ

-- The loop of `united_bus_absorb` from the read position `head`, with the globules absorbed so far
-- and `room` places left. `none`: the rounds ran out.
pub absorb_loop : ℕ → Bus → ℕ → ℕ → ℕ → List Globule → Option (ℕ × List Globule)
absorb_loop zero b organ head room out = none
absorb_loop (suc fuel) b organ head room out =
    let g = b.blood_stream head in
    let taken = absorb_loop fuel b organ (next_index b head) (room - 1) (out ++ (g ∷ [])) in
    let passed = absorb_loop fuel b organ (next_index b head) room out in
    if not (head == b.heart_systole) && ltb 0 room
    then (if is_for organ g then taken else passed)
    else some (head, out)

-- `united_bus_absorb` within `fuel` rounds: the new bus and the globules in the order of the stream.
-- `max_globules` at or below zero is 0 here: the loop is not entered.
unfoldable pub absorb : ℕ → Bus → ℕ → ℕ → Option (Bus × List Globule)
unfolding absorb_loop
absorb fuel b organ max_globules =
    if leb max_organs organ
    then some (b, [])
    else elim (absorb_loop fuel b organ (get_or b.organ_read_heads organ 0) max_globules []) [
      | none ↦ none
      | some (head, out) ↦
          some (record b { organ_read_heads = set b.organ_read_heads organ head }, out)
    ]

-- How far a position lies behind the write position.
abbrev pub distance : Bus → ℕ → ℕ
distance b h = u32 (sub_u32 b.heart_systole h + b.current_capacity) % b.current_capacity

-- The loop of `united_bus_gc` over the read heads.
pub furthest : Bus → ℕ → List ℕ → ℕ
furthest b min_head [] = min_head
furthest b min_head (h ∷ hs) =
    furthest b (if ltb (distance b min_head) (distance b h) then h else min_head) hs

-- `united_bus_gc`
unfoldable pub gc : Bus → Bus
unfolding furthest
gc b = record b { heart_diastole = furthest b b.heart_systole b.organ_read_heads }

-- `united_bus_health_t`
pub record BusHealth : Type 0 where
  pub drops : ℕ
  pub total_pumps : ℕ
  pub overflow_count : ℕ
  pub immune_triggers : ℕ
  pub pending_globules : ℕ
  pub capacity : ℕ

-- `united_bus_get_health`
unfoldable pub get_health : Bus → BusHealth
get_health b = record {
  drops = b.drops;
  total_pumps = b.total_pumps;
  overflow_count = b.drops;
  immune_triggers = 0;
  pending_globules = distance b b.heart_diastole;
  capacity = b.current_capacity;
}

-- The globule of `united_bus_broadcast_yellow` and `united_bus_broadcast_white`; its id is set by
-- `pump`.
abbrev pub signal : GlobuleType → ℕ → ℕ → Globule
signal t source code = record {
  globule_id = 0;
  type = t;
  source_organ = source;
  target_organ = organ_broadcast;
  payload_addr = 0;
  payload_size = code;
}

-- `united_bus_broadcast_yellow`
unfoldable pub broadcast_yellow : Bus → ℕ → ℕ → Bus × PumpResult
broadcast_yellow b source signal_code = pump b (signal GlobuleType.yellow source signal_code)

-- `united_bus_broadcast_white`
unfoldable pub broadcast_white : Bus → ℕ → ℕ → Bus × PumpResult
broadcast_white b source threat_id = pump b (signal GlobuleType.white source threat_id)
