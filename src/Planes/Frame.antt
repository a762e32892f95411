-- ===== src/Planes/Frame.antt =====
-- The telemetry frame on the wire: its length, and how a receiver reads it back.
use operating_organism.Prelude.{
  ltb, length, get_or, All, ℕ, ◌+◌, ◌*◌, ◌/◌, ◌%◌, ◌^◌, ◌≤◌, ◌<◌, ◌≡◌, refl, false, List, [], ◌∷◌,
  arith,
}
use operating_organism.Planes.Telemetry.{Packet, wire_size, fill, serialize}
use operating_organism.Planes.Tick.{exhale}
use operating_organism.Homeostasis.{Mode, mode_code}
use operating_organism.Organs.{Organs, ready, get, aggregate_of, aggregate_health}
use operating_organism.Organs.Health.{IsValid, aggregate-le}
use operating_organism.Organs.Publish.{ready-IsValid}

-- The receiver's side: little-endian numbers read from the frame.
abbrev get_le16 : ℕ → ℕ → ℕ
get_le16 a b = a + b * 2 ^ 8

abbrev get_le32 : ℕ → ℕ → ℕ → ℕ → ℕ
get_le32 a b c d = a + b * 2 ^ 8 + c * 2 ^ 16 + d * 2 ^ 24

abbrev pub at : List ℕ → ℕ → ℕ
at xs i = get_or xs i 0

abbrev at32 : List ℕ → ℕ → ℕ
at32 xs i = get_le32 (at xs i) (at xs (1 + i)) (at xs (2 + i)) (at xs (3 + i))

pub parse : List ℕ → Packet
parse xs = record {
  magic = at32 xs 0;
  organ_id = get_le16 (at xs 4) (at xs 5);
  mode = at xs 6;
  health = at xs 7;
  cpu_neural = at32 xs 8;
  mem_used_mb = at32 xs 12;
  breath_rate = at32 xs 16;
  tick = at32 xs 20;
}

-- Every field is in the range of its C type.
pub record InRange (p : Packet) : Type 0 where
  pub magic : p.magic < 2 ^ 32
  pub organ_id : p.organ_id < 2 ^ 16
  pub mode : p.mode < 2 ^ 8
  pub health : p.health < 2 ^ 8
  pub cpu_neural : p.cpu_neural < 2 ^ 32
  pub mem_used_mb : p.mem_used_mb < 2 ^ 32
  pub breath_rate : p.breath_rate < 2 ^ 32
  pub tick : p.tick < 2 ^ 32

le32_round_trip :
    (v : ℕ)
    → v < 2 ^ 32
    → get_le32 (v % 256) (v / 2 ^ 8 % 256) (v / 2 ^ 16 % 256) (v / 2 ^ 24 % 256) ≡ v
le32_round_trip v h = omega arith

-- A packet whose fields fit their types is read back from its frame as it was, and the frame has 24
-- bytes, each below 256, whatever room beyond 24 bytes the buffer has.
pub parse-serialize :
    (p : Packet) (out_len : ℕ)
    → InRange p
    → wire_size ≤ out_len
    → (parse (serialize p out_len) ≡ p)
      × (length (serialize p out_len) ≡ wire_size)
      × All (λ byte. byte < 256) (serialize p out_len)
unfolding serialize parse
parse-serialize p out_len r h =
    let room : ltb out_len wire_size ≡ false = ground arith in
    rw room (
      ground (
        arith,
        le32_round_trip p.magic,
        le32_round_trip p.cpu_neural,
        le32_round_trip p.mem_used_mb,
        le32_round_trip p.breath_rate,
        le32_round_trip p.tick,
      ),
      refl,
      omega arith,
    )

-- What `oo_telemetry_fill` reports fits the fields of the packet and keeps health and load in
-- percent, if the breath rate and the tick count are 32-bit numbers.
pub fill-InRange :
    (o : Organs) (m : Mode) (breath tick : ℕ)
    → IsValid o
    → breath < 2 ^ 32
    → tick < 2 ^ 32
    → let p = (fill o m breath tick).1 in InRange p × (p.health ≤ 100) × (p.cpu_neural ≤ 100)
unfolding fill aggregate_health get
fill-InRange o m breath tick v hb ht = ground (arith, aggregate-le (ready o) (ready-IsValid v))

pub exhale-cons :
    (out : List (List ℕ)) (frame : List ℕ)
    → length frame ≡ wire_size
    → exhale out frame ≡ frame ∷ out
exhale-cons out [] e = absurd (omega arith)
exhale-cons out (x ∷ xs) e = refl

pub fill_lem :
    (o : Organs) (m : Mode) (breath tick : ℕ)
    → let (o', p) = fill o m breath tick in
      (o' ≡ ready o)
      × (p.mode ≡ mode_code m)
      × (p.health ≡ aggregate_of (ready o).registry)
      × (p.tick ≡ tick)
unfolding fill aggregate_health
fill_lem o m breath tick = (refl, refl, refl, refl)
