-- ===== src/Organs.antt =====
-- The organ state registry (control-planes/src/oo_organ_state.c and include/oo_organ_state.h).
-- An organ is the number of its `oo_organ_t`, as the calls pass it.
pub mod Health
pub mod Publish
mod Examples
use operating_organism.Prelude.{
  ltb, leb, ◌==◌, if◌then◌else◌, not, set, get_or, replicate, u8, u32, ℕ, ◌+◌, ◌*◌, ◌/◌, ◌^◌,
  bit_or, Bool, true, false, ◌&&◌, ◌||◌, Option, none, some, List, [], ◌∷◌, map,
}
use operating_organism.Bus.{Bus, broadcast_yellow}

-- `OO_ORGAN_COUNT` and the organs that the code names.
abbrev pub organ_count : ℕ
organ_count = 17

abbrev pub united : ℕ
united = 0

abbrev pub kernel : ℕ
kernel = 1

abbrev pub memory : ℕ
memory = 2

abbrev pub reflex : ℕ
reflex = 7

abbrev pub vital : ℕ
vital = 14

abbrev pub cortex : ℕ
cortex = 16

-- `oo_organ_snapshot_t`, without its padding byte.
pub record Snapshot : Type 0 where
  pub present : Bool
  pub health : ℕ
  pub mode : ℕ
  pub heartbeat : ℕ

abbrev pub blank : Snapshot
blank = record { present = false; health = 0; mode = 0; heartbeat = 0 }

-- The static state: `g_registry`, of 17 entries, and `g_inited`.
pub record Organs : Type 0 where
  pub registry : List Snapshot
  pub inited : Bool

-- Before the first call.
abbrev pub boot : Organs
boot = record { registry = replicate organ_count blank; inited = false }

-- `organ_state_init`
unfoldable pub init : Organs → Organs
init o = if o.inited then o else record { registry = map (λ s. blank) o.registry; inited = true }

-- The code of `organ_state_publish` for the bus: organ, mode and health in one word.
abbrev pub signal_code : ℕ → ℕ → ℕ → ℕ
signal_code organ mode health = bit_or (bit_or (u32 (organ * 2 ^ 16)) (u32 (mode * 2 ^ 8))) health

abbrev pub clamp_health : ℕ → ℕ
clamp_health health = if ltb 100 health then 100 else health

-- The first line of each function below that reads the registry.
abbrev pub ready : Organs → Organs
ready o = if not o.inited then init o else o

-- The snapshot after a publication.
abbrev pub beat : Snapshot → ℕ → ℕ → Snapshot
beat s health mode = record {
  present = true;
  health = health;
  mode = mode;
  heartbeat = u32 (s.heartbeat + 1);
}

-- `organ_state_publish`. An organ outside the registry is ignored, though the registry is
-- initialised.
unfoldable pub publish : Organs → Bus → ℕ → ℕ → ℕ → Organs × Bus
publish o₀ b organ health₀ mode =
    let o = ready o₀ in
    let health = clamp_health health₀ in
    if leb organ_count organ then (o, b) else (
      record o {
        registry = set o.registry organ (beat (get_or o.registry organ blank) health mode);
      },
      (broadcast_yellow b (u8 organ) (signal_code organ mode health)).0,
    )

-- `organ_state_get`: `none` is the -1 of an invalid organ.
unfoldable pub get : Organs → ℕ → Option Snapshot
get o organ = if leb organ_count organ then none else some (get_or o.registry organ blank)

-- The loop of `organ_state_aggregate_health`: the sum of the healths that are present, and their
-- number.
unfoldable pub totals : List Snapshot → ℕ → ℕ → ℕ × ℕ
totals [] sum n = (sum, n)
totals (s ∷ rest) sum n =
    totals rest (if s.present then u32 (sum + s.health) else sum)
      (if s.present then u32 (n + 1) else n)

-- `organ_state_aggregate_health`, of a registry that is initialised.
unfoldable pub aggregate_of : List Snapshot → ℕ
unfolding totals
aggregate_of registry = let (sum, n) = totals registry 0 0 in if n == 0 then 100 else u8 (sum / n)

unfoldable pub aggregate_health : Organs → Organs × ℕ
aggregate_health o₀ = let o = ready o₀ in (o, aggregate_of o.registry)

abbrev pub is_vital : ℕ → Bool
is_vital i = i == united || i == kernel || i == memory || i == reflex || i == vital

-- The loop of `organ_state_worst_nonvital_health` from index `i` on.
unfoldable pub worst_from : ℕ → List Snapshot → ℕ → ℕ
worst_from i [] worst = worst
worst_from i (s ∷ rest) worst =
    worst_from (i + 1) rest
      (if is_vital i then worst else (if s.present && ltb s.health worst then s.health else worst))

unfoldable pub worst_nonvital_of : List Snapshot → ℕ
unfolding worst_from
worst_nonvital_of registry = worst_from 0 registry 100

unfoldable pub worst_nonvital_health : Organs → Organs × ℕ
worst_nonvital_health o₀ = let o = ready o₀ in (o, worst_nonvital_of o.registry)

-- `chain` of `organ_state_vital_chain_alive`
abbrev pub chain : List ℕ
chain = united ∷ kernel ∷ memory ∷ reflex ∷ vital ∷ []

unfoldable pub chain_alive : List Snapshot → List ℕ → Bool
chain_alive registry [] = true
chain_alive registry (i ∷ rest) =
    let s = get_or registry i blank in
    if s.present && s.health == 0 then false else chain_alive registry rest

unfoldable pub chain_alive_of : List Snapshot → Bool
unfolding chain_alive
chain_alive_of registry = chain_alive registry chain

-- `organ_state_vital_chain_alive`
unfoldable pub vital_chain_alive : Organs → Organs × Bool
vital_chain_alive o₀ = let o = ready o₀ in (o, chain_alive_of o.registry)
