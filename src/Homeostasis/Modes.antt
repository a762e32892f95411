-- ===== src/Homeostasis/Modes.antt =====
-- The transitions of the mode machine, and how they follow from the readings.
use operating_organism.Organs
use operating_organism.Prelude.{
  if◌then◌else◌, Bool-cases, ℕ, ◌+◌, ◌≤◌, ◌<◌, ◌≡◌, refl, ◌≢◌, ◌↔◌, ◌⊎◌, inl, inr, Bool, true,
  false, arith,
}
use operating_organism.Homeostasis.{
  Mode, normal, degraded, safe, recovery, mode_code, safe_below, normal_above, same_mode, next_mode,
  effective, mode_signal, evaluate,
}
use operating_organism.Organs.{
  vital, Organs, ready, aggregate_of, aggregate_health, worst_nonvital_of, worst_nonvital_health,
  chain_alive_of, vital_chain_alive,
}
use operating_organism.Bus.{GlobuleType, Bus, pump, signal, broadcast_yellow}

-- The edges of the machine: SAFE is left for RECOVERY only, and NORMAL is entered from DEGRADED or
-- RECOVERY only.
pub data Edge : Mode → Mode → Type 0 where
  weaken : Edge normal degraded
  alarm : Edge normal safe
  worsen : Edge degraded safe
  heal : Edge degraded normal
  restart : Edge safe recovery
  relapse : Edge recovery safe
  resume : Edge recovery normal

ruleset edges = (weaken, alarm, worsen, heal, restart, relapse, resume)

-- What an evaluation reads.
abbrev pub reading : Organs → ℕ
reading o = effective (aggregate_of (ready o).registry) (worst_nonvital_of (ready o).registry)

abbrev pub living : Organs → Bool
living o = chain_alive_of (ready o).registry

pub ready_twice : (o : Organs) → ready (ready o) ≡ ready o
unfolding Organs.init
ready_twice o = ground arith

-- An evaluation in terms of the mode that it leads to, of the registry, which is at most initialised,
-- and of the bus.
pub evaluate_lem :
    (o : Organs) (b : Bus) (m : Mode)
    → let m' = next_mode m (reading o) (living o) in
      evaluate o b m ≡ (
        ready o,
        (if same_mode m' m
            then b
            else (pump b (signal GlobuleType.yellow vital (mode_signal m'))).0),
        m',
      )
unfolding evaluate aggregate_health worst_nonvital_health vital_chain_alive broadcast_yellow
evaluate_lem o b m = ground (arith, ready_twice o)

-- Every change of mode follows an edge of the machine.
next_mode-Edge :
    (m : Mode) (health : ℕ) (alive : Bool)
    → next_mode m health alive ≢ m
    → Edge m (next_mode m health alive)
unfolding next_mode
next_mode-Edge m health alive h = grind (arith, edges)

-- A broken vital chain, or an effective health below 40 outside SAFE, leads to SAFE at once; SAFE is
-- entered for no other reason.
next_mode-safe_iff :
    (m : Mode) (health : ℕ) (alive : Bool)
    → m ≢ safe
    → (next_mode m health alive ≡ safe) ↔ ((alive ≡ false) ⊎ (health < safe_below))
unfolding next_mode
next_mode-safe_iff m health alive h = (λ e. ground arith, λ r. ground arith)

-- On readings that stay as they are the machine comes to rest after two evaluations: it does not
-- swing between modes, whatever the health.
next_mode_settles :
    (m : Mode) (health : ℕ) (alive : Bool)
    → let f : Mode → Mode = λ k. next_mode k health alive in f (f (f m)) ≡ f (f m)
unfolding next_mode
next_mode_settles m health alive = ground arith

-- An organism whose vital chain lives and whose effective health stays at 90 or more is NORMAL
-- after two evaluations, from any mode, SAFE included.
next_mode_recovers :
    (m : Mode) (h₁ h₂ : ℕ)
    → normal_above ≤ h₁
    → normal_above ≤ h₂
    → next_mode (next_mode m h₁ true) h₂ true ≡ normal
unfolding next_mode
next_mode_recovers m h₁ h₂ p q = ground arith

-- The mode `m'` that follows on `m`, by the average health, the worst non-vital health and the life
-- of the vital chain, condition by condition.
pub record Follows (m m' : Mode) (average worst : ℕ) (alive : Bool) : Type 0 where
  edge : m' ≢ m → Edge m m'
  to_safe : m ≢ safe → (m' ≡ safe) ↔ ((alive ≡ false) ⊎ ((average < 40) ⊎ (worst < 40)))
  out_of_safe : m ≡ safe → (m' ≡ safe) ↔ ((alive ≡ false) ⊎ ((average < 85) ⊎ (worst < 85)))
  stays_normal : m ≡ normal → (m' ≡ normal) ↔ ((alive ≡ true) × ((75 ≤ average) × (75 ≤ worst)))
  to_normal :
      m ≢ normal → (m' ≡ normal) ↔ ((m ≢ safe) × ((alive ≡ true) × ((90 ≤ average) × (90 ≤ worst))))

follows :
    (m : Mode) (average worst : ℕ) (alive : Bool)
    → Follows m (next_mode m (effective average worst) alive) average worst alive
unfolding next_mode
follows m average worst alive = record {
  edge = next_mode-Edge m (effective average worst) alive;
  to_safe = λ h. (λ e. ground arith, λ r. ground arith);
  out_of_safe = λ h. (λ e. ground arith, λ r. ground arith);
  stays_normal = λ h. (λ e. ground arith, λ r. ground arith);
  to_normal = λ h. (λ e. ground arith, λ r. ground arith);
}

same_mode_sound : (m n : Mode) → same_mode m n ≡ true → m ≡ n
same_mode_sound m n e = ground (arith, e)

same_mode_self : (m n : Mode) → m ≡ n → same_mode m n ≡ true
same_mode_self m n e = ground (arith, e)

mode_signal_sum : (m : Mode) → mode_signal m ≡ 0x4D000000 + mode_code m
mode_signal_sum normal = refl
mode_signal_sum degraded = refl
mode_signal_sum safe = refl
mode_signal_sum recovery = refl

-- The mode after an evaluation, by the mode before, the average health, the worst non-vital health
-- and the vital chain. It changes along the seven edges of the machine only: NORMAL to DEGRADED or
-- SAFE, DEGRADED to SAFE or NORMAL, SAFE to RECOVERY, RECOVERY to SAFE or NORMAL. Outside SAFE it
-- becomes SAFE exactly if the chain is broken or one of the two healths is below 40; SAFE is kept
-- exactly if the chain is broken or one of them is below 85; NORMAL is kept exactly if the chain
-- lives and both are 75 or more; and it is reached exactly from DEGRADED or RECOVERY, if the chain
-- lives and both are 90 or more. The registry is at most initialised. The bus carries one yellow
-- globule more, with 0x4D000000 plus the number of the new mode, if the mode has changed, and is left
-- alone if not.
pub modes_lem :
    (o : Organs) (b : Bus) (m : Mode)
    → let (o', b', m') = evaluate o b m in
      Follows m m'
        (aggregate_of (ready o).registry)
        (worst_nonvital_of (ready o).registry)
        (living o)
      × (o' ≡ ready o)
      × (m' ≡ m → b' ≡ b)
      × (m' ≢ m → b' ≡ (pump b (signal GlobuleType.yellow vital (0x4D000000 + mode_code m'))).0)
modes_lem o b m =
    let m' = next_mode m (reading o) (living o) in
    rw (evaluate_lem o b m) (
      follows m (aggregate_of (ready o).registry) (worst_nonvital_of (ready o).registry) (living o),
      refl,
      (λ e. rw (same_mode_self m' m e) refl),
      (λ ne. elim (Bool-cases (same_mode m' m)) [
        | inl same ↦ absurd (ne (same_mode_sound m' m same))
        | inr changed ↦ rw (changed, mode_signal_sum m') refl
      ]),
    )
