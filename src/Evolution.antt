-- ===== src/Evolution.antt =====
-- Mutations and pheromones: what asks the thymus before it acts (evolution-baremetal/src/mutation.c
-- and swarm-baremetal/src/collective.c).
pub mod Saturation
pub mod Pheromones
mod Examples
use operating_organism.Prelude.{if◌then◌else◌, u32, ℕ, Bool, true, false, List, [], ◌∷◌}
use operating_organism.Bus.{GlobuleType, Globule, pump}
use operating_organism.Identity.{calculate_dna, Thymus, is_self, trust_dna}

-- `evolution_apply_mutation` of the bytes of the weights; true for its 0, false for its -1. The
-- signature stands on the stack, at the address `addr`.
unfoldable pub apply_mutation : Thymus → Globule → ℕ → List ℕ → Thymus × Bool
unfolding is_self trust_dna calculate_dna
apply_mutation t junk addr [] = (t, false)
apply_mutation t junk addr (w ∷ weights) =
    let sig = calculate_dna (w ∷ weights) in
    let (t', self) = is_self t junk addr sig in
    if self then (trust_dna t' sig, true) else (t', false)

-- The globule of `swarm_on_pheromone_received`: `ORGAN_TYPE_SWARM` to organ 1. Its id is set
-- by `pump`.
abbrev pub shared_immunity : ℕ → ℕ → Globule
shared_immunity data_addr size = record {
  globule_id = 0;
  type = GlobuleType.white;
  source_organ = 10;
  target_organ = 1;
  payload_addr = data_addr;
  payload_size = u32 size;
}

-- `swarm_on_pheromone_received` of a sender's signature at an address.
unfoldable pub on_pheromone_received : Thymus → Globule → ℕ → List ℕ → ℕ → ℕ → Thymus
unfolding is_self
on_pheromone_received t junk addr dna data_addr size =
    let (t', self) = is_self t junk addr dna in
    if self then record t' { bus = (pump t'.bus (shared_immunity data_addr size)).0 } else t'
