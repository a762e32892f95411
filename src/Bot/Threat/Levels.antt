-- ===== src/Bot/Threat/Levels.antt =====
-- How the threat level moves: along the matrix only, and one rank at a time on the way up.
use operating_organism.Prelude.{
  leb, ◌==◌, u64, ℕ, zero, suc, ◌+◌, ◌≤◌, min, ◌≡◌, refl, ◌≢◌, ◌↔◌, ◌⊎◌, Bool, true, ◌&&◌, ◌||◌,
  Option, arith,
}
use operating_organism.Bot.Threat.{Reason, ThreatState, initial, transition_is_valid, transition}

-- A transition is accepted exactly to the level at hand or along the matrix. An accepted change
-- counts once, keeps the level it came from, and enters the new level once more; anything else
-- leaves the state as it was.
transition_lem :
    (s : ThreatState) (to : ℕ) (why : Option Reason)
    → let r = transition s to why in
      (r.1 ≡ 1
        ↔ ((to ≤ 5) × ((to ≡ s.current_level) ⊎ (transition_is_valid s.current_level to ≢ 0))))
      × ((r.1 ≡ 0) ⊎ (to ≡ s.current_level) → r.0 ≡ s)
      × (r.1 ≡ 1 → r.0.current_level ≡ to)
      × (r.1 ≡ 1
          → to ≢ s.current_level
          → (r.0.previous_level ≡ s.current_level)
            × (r.0.transition_count ≡ u64 (s.transition_count + 1)))
unfolding transition
transition_lem s to why = ground arith

-- The rank of a level: how many escalations lie between DORMANT and it.
abbrev pub rank : ℕ → ℕ
rank level = min level 4

-- `n` calls of `threat_transition` lead from the first state to this one.
pub data Calls : ℕ → ThreatState → Type 0 where
  start : Calls 0 initial
  call :
      {n : ℕ} {s : ThreatState} (to : ℕ) (why : Option Reason)
      → Calls n s
      → Calls (suc n) (transition s to why).0

-- A property of the six levels holds of every one of them.
six : (P : ℕ → Type 0) (n : ℕ) → n ≤ 5 → P 0 → P 1 → P 2 → P 3 → P 4 → P 5 → P n
six P zero h a b c d e f = a
six P (suc zero) h a b c d e f = b
six P (suc (suc zero)) h a b c d e f = c
six P (suc (suc (suc zero))) h a b c d e f = d
six P (suc (suc (suc (suc zero)))) h a b c d e f = e
six P (suc (suc (suc (suc (suc zero))))) h a b c d e f = f
six P (suc (suc (suc (suc (suc (suc n)))))) h a b c d e f = absurd (omega arith)

climbs : ℕ → ℕ → Bool
unfolding transition_is_valid
climbs from to = transition_is_valid from to == 0 || leb (rank to) (suc (rank from))

all_climb : (from to : ℕ) → from ≤ 5 → to ≤ 5 → climbs from to ≡ true
unfolding climbs
all_climb from to h k =
    six (λ m. climbs m to ≡ true) from h (row 0 refl) (row 1 refl) (row 2 refl) (row 3 refl)
      (row 4 refl) (row 5 refl)
  where
    every : ℕ → Bool
    every m =
        climbs m 0 && (climbs m 1 && (climbs m 2 && (climbs m 3 && (climbs m 4 && climbs m 5))))

    row : (m : ℕ) → every m ≡ true → climbs m to ≡ true
    row m e =
        six (λ n. climbs m n ≡ true) to k (ground (arith, e)) (ground (arith, e))
          (ground (arith, e)) (ground (arith, e)) (ground (arith, e)) (ground (arith, e))

matrix_climbs : (from to : ℕ) → to ≤ 5 → transition_is_valid from to ≢ 0 → rank to ≤ suc (rank from)
unfolding climbs transition_is_valid
matrix_climbs from to k h = ground (arith, all_climb from to)

-- However the calls go, the level has risen by at most one rank per call. So COMBAT is three calls
-- away from the start, and SURVIVAL and CONFINEMENT are four.
level_climbs :
    {n : ℕ} {s : ThreatState} → Calls n s → (rank s.current_level ≤ n) × (s.current_level ≤ 5)
unfolding transition initial
level_climbs start = omega arith
level_climbs (call {n} {s} to why c) =
    ground (arith, level_climbs c, matrix_climbs s.current_level to)
