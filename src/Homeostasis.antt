-- ===== src/Homeostasis.antt =====
-- The homeostasis mode machine (control-planes/src/oo_homeostasis_mode.c and
-- include/oo_homeostasis_mode.h). `g_mode` holds only the four modes that the file assigns, so the
-- `default` of its switches is not reached.
pub mod Modes
mod Examples
use operating_organism.Prelude.{ltb, leb, ◌==◌, if◌then◌else◌, not, u8, ℕ, bit_or, Bool}
use operating_organism.Bus.{Bus, broadcast_yellow}
use operating_organism.Organs.{
  vital, Organs, aggregate_health, worst_nonvital_health, vital_chain_alive,
}

-- `oo_homeostasis_mode_t`
pub data Mode : Type 0 where
  normal degraded safe recovery : Mode

-- The number of a mode in the enumeration.
abbrev pub mode_code : Mode → ℕ
mode_code normal = 0
mode_code degraded = 1
mode_code safe = 2
mode_code recovery = 3

-- `OO_HEALTH_…`
abbrev pub degraded_below : ℕ
degraded_below = 75

abbrev pub safe_below : ℕ
safe_below = 40

abbrev recover_above : ℕ
recover_above = 85

abbrev pub normal_above : ℕ
normal_above = 90

abbrev pub same_mode : Mode → Mode → Bool
same_mode m n = mode_code m == mode_code n

-- The switch of `homeostasis_mode_evaluate`, for a living vital chain.
by_health : Mode → ℕ → Mode
by_health normal health =
    if ltb health safe_below then safe else (if ltb health degraded_below then degraded else normal)
by_health degraded health =
    if ltb health safe_below then safe else (if leb normal_above health then normal else degraded)
by_health safe health = if leb recover_above health then recovery else safe
by_health recovery health =
    if ltb health safe_below then safe else (if leb normal_above health then normal else recovery)

-- The mode after `m`, from the effective health and the life of the vital chain.
unfoldable pub next_mode : Mode → ℕ → Bool → Mode
unfolding by_health
next_mode m health alive = if not alive then safe else by_health m health

-- The effective health: the average, or the worst non-vital organ if that is lower.
abbrev pub effective : ℕ → ℕ → ℕ
effective agg worst = if ltb worst agg then worst else agg

-- The code that a transition broadcasts.
abbrev pub mode_signal : Mode → ℕ
mode_signal m = bit_or 0x4D000000 (mode_code m)

-- `homeostasis_mode_evaluate`: the registry (initialised by the calls that read it), the bus, and
-- the mode. The lines it prints are left out.
unfoldable pub evaluate : Organs → Bus → Mode → Organs × Bus × Mode
evaluate o₀ b m =
    let (o₁, agg) = aggregate_health o₀ in
    let (o₂, worst) = worst_nonvital_health o₁ in
    let (o₃, alive) = vital_chain_alive o₂ in
    let next = next_mode m (effective agg worst) alive in
    if not (same_mode next m)
    then (o₃, (broadcast_yellow b (u8 vital) (mode_signal next)).0, next)
    else (o₃, b, m)
