-- ===== src/Organs/Publish.antt =====
-- Publishing a health: what the registry and the bus hold afterwards.
use operating_organism.Organs
use operating_organism.Prelude.{
  length-set, get_or, length-map, u8, u32, All-set, All-map, get_or-set_self, get_or-set_ne, ℕ, ◌+◌,
  ◌*◌, ◌/◌, ◌%◌, ◌^◌, ◌≤◌, ◌<◌, ◌≡◌, ◌∙◌, ◌≢◌, some, arith,
}
use operating_organism.Prelude.Bits.{bit_or_fields}
use operating_organism.Organs.{
  organ_count, Snapshot, blank, Organs, signal_code, clamp_health, ready, beat, publish, get,
}
use operating_organism.Organs.Health.{InPercent, IsValid}
use operating_organism.Bus.{GlobuleType, Globule, Bus, pumped, pump, signal, broadcast_yellow}
use operating_organism.Bus.Pump.{pump_result}

boot-IsValid : IsValid Organs.boot
boot-IsValid = omega arith

pub init-IsValid : {o : Organs} → IsValid o → IsValid (Organs.init o)
unfolding Organs.init
init-IsValid {o} v = ground (
  arith,
  length-map o.registry (λ s. blank),
  All-map InPercent (λ s. blank) o.registry (λ s h. omega arith) v.percent,
)

pub ready-IsValid : {o : Organs} → IsValid o → IsValid (ready o)
ready-IsValid {o} v = ground (arith, init-IsValid v)

-- Publishing keeps the registry at 17 organs with healths in percent, whatever health is given.
publish-IsValid :
    {o : Organs} (b : Bus) (organ health mode : ℕ)
    → IsValid o
    → IsValid (publish o b organ health mode).0
unfolding publish
publish-IsValid {o} b organ health mode v =
    let s : Snapshot = beat (get_or (ready o).registry organ blank) (clamp_health health) mode in
    let w : IsValid (ready o) = ready-IsValid v in
    ground (
      arith,
      length-set (ready o).registry organ s,
      All-set InPercent (ready o).registry organ s w.percent (ground arith),
      w,
    )

-- After an organ of the registry has published, its snapshot is the one that it gave, with health
-- at most 100 and one more heartbeat; every other snapshot is as it was.
get-publish :
    (o : Organs) (b : Bus) (organ other health mode : ℕ)
    → IsValid o
    → organ < organ_count
    → let o' = (publish o b organ health mode).0 in
      (get o' organ
        ≡ some (beat (get_or (ready o).registry organ blank) (clamp_health health) mode))
      × (organ ≢ other → get o' other ≡ get (ready o) other)
unfolding publish get
get-publish o b organ other health mode v h =
    let s : Snapshot = beat (get_or (ready o).registry organ blank) (clamp_health health) mode in
    ground (
      arith,
      get_or-set_self (ready o).registry organ s blank (omega (arith, ready-IsValid v)),
      get_or-set_ne (ready o).registry organ other s blank,
    )

-- The signal code holds organ, mode and health in fields of their own.
signal_fields :
    (organ mode health : ℕ)
    → organ < organ_count
    → mode < 256
    → health ≤ 100
    → signal_code organ mode health ≡ organ * 65536 + mode * 256 + health
signal_fields organ mode health ho hm hh =
    rw (high, low)
      (rw (bit_or_fields 16 organ (mode * 2 ^ 8) (omega arith), split)
        (bit_or_fields 8 (organ * 2 ^ 8 + mode) health (omega arith) ∙ omega arith))
  where
    high : u32 (organ * 2 ^ 16) ≡ organ * 2 ^ 16
    high = omega arith

    low : u32 (mode * 2 ^ 8) ≡ mode * 2 ^ 8
    low = omega arith

    split : organ * 2 ^ 16 + mode * 2 ^ 8 ≡ (organ * 2 ^ 8 + mode) * 2 ^ 8
    split = omega arith

-- The globule that a publication broadcasts.
abbrev announcement : ℕ → ℕ → ℕ → Globule
announcement organ health mode =
    signal GlobuleType.yellow (u8 organ) (signal_code organ mode (clamp_health health))

-- A publication by an organ of the registry is announced to all organs, is never refused by the
-- bus, and a receiver finds the organ, the mode and the health in its code by shifts and masks.
publish_announces :
    (o : Organs) (b : Bus) (organ health mode : ℕ)
    → organ < organ_count
    → mode < 256
    → let g = announcement organ health mode in
      ((publish o b organ health mode).1 ≡ (pump b g).0)
      × ((pump b g).1 ≡ pumped)
      × (g.payload_size / 2 ^ 16 ≡ organ)
      × (g.payload_size / 2 ^ 8 % 2 ^ 8 ≡ mode)
      × (g.payload_size % 2 ^ 8 ≡ clamp_health health)
unfolding publish broadcast_yellow
publish_announces o b organ health mode h k =
    let e : signal_code organ mode (clamp_health health)
        ≡ organ * 65536 + mode * 256 + clamp_health health =
      signal_fields organ mode (clamp_health health) h k (ground arith) in
    (
      ground arith,
      ground (arith, pump_result b (announcement organ health mode)),
      ground arith,
      ground arith,
      ground arith,
    )
