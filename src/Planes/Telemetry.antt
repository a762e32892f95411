-- ===== src/Planes/Telemetry.antt =====
-- The telemetry frame (control-planes/src/oo_telemetry.c and include/oo_telemetry.h).
use operating_organism.Prelude.{
  ltb, leb, if◌then◌else◌, ℕ, ◌-◌, ◌/◌, ◌%◌, ◌^◌, Option, none, some, List, [], ◌∷◌, ◌++◌,
}
use operating_organism.Organs.{cortex, Snapshot, Organs, get, aggregate_health}
use operating_organism.Homeostasis.{Mode, mode_code}

-- `oo_telemetry_pkt_t`
pub record Packet : Type 0 where
  pub magic : ℕ
  pub organ_id : ℕ
  pub mode : ℕ
  pub health : ℕ
  pub cpu_neural : ℕ
  pub mem_used_mb : ℕ
  pub breath_rate : ℕ
  pub tick : ℕ

abbrev pub telemetry_magic : ℕ
telemetry_magic = 0x4F4F5431

abbrev pub wire_size : ℕ
wire_size = 24

-- `put_le32` and `put_le16`: the bytes in the order of their addresses. `v >> k` is `v / 2 ^ k`, and
-- `& 0xFF` the remainder by 256.
abbrev put_le32 : ℕ → List ℕ
put_le32 v = (v % 256) ∷ (v / 2 ^ 8 % 256) ∷ (v / 2 ^ 16 % 256) ∷ (v / 2 ^ 24 % 256) ∷ []

abbrev put_le16 : ℕ → List ℕ
put_le16 v = (v % 256) ∷ (v / 2 ^ 8 % 256) ∷ []

-- The load proxy of `oo_telemetry_fill`.
abbrev neural_load : Option Snapshot → ℕ
neural_load none = 0
neural_load (some s) = if s.present then (if leb s.health 100 then 100 - s.health else 0) else 0

-- `oo_telemetry_fill`. The breath rate is what `network_get_stats` gives.
unfoldable pub fill : Organs → Mode → ℕ → ℕ → Organs × Packet
fill o₀ m breath tick =
    let load = neural_load (get o₀ cortex) in
    let (o, health) = aggregate_health o₀ in
    (
      o,
      record {
        magic = telemetry_magic;
        organ_id = 0xFFFF;
        mode = mode_code m;
        health = health;
        cpu_neural = load;
        mem_used_mb = 0;
        breath_rate = breath;
        tick = tick;
      },
    )

-- `oo_telemetry_serialize` into a buffer of `out_len` bytes: the bytes written, none if it is too
-- small.
unfoldable pub serialize : Packet → ℕ → List ℕ
serialize p out_len =
    if ltb out_len wire_size
    then []
    else put_le32 p.magic
      ++ (put_le16 p.organ_id
          ++ (p.mode
              ∷ p.health
              ∷ (put_le32 p.cpu_neural
                  ++ (put_le32 p.mem_used_mb ++ (put_le32 p.breath_rate ++ put_le32 p.tick)))))
