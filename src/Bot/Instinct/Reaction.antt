-- ===== src/Bot/Instinct/Reaction.antt =====
-- What the table of reflexes answers.
use operating_organism.Prelude.{
  leb, Bool-cases, All, ℕ, ◌≤◌, ◌<◌, ◌≡◌, refl, ◌≢◌, ◌⊎◌, inl, inr, true, false, ◌&&◌, List, [],
  ◌∷◌, arith,
}
use operating_organism.Bot.Instinct.{
  TriggerType, mem_rop_chain, ReactionType, intensify_watch, InstinctRule, instinct_rules, applies,
  best_reaction, get_reaction,
}
use mathlib.Core.List.{Memᴰ}

abbrev Applies : TriggerType → ℕ → ℕ → InstinctRule → Type 0
Applies t level confidence r = applies t level confidence r ≡ true

-- `r` is a rule of `rs` that applies, and none that applies asks for a lower level.
pub record IsLeast (rs : List InstinctRule) (t : TriggerType) (level confidence : ℕ)
    (r : InstinctRule) : Type 0 where
  listed : Memᴰ r rs
  pub fits : Applies t level confidence r
  least : All (λ r'. Applies t level confidence r' → r.min_threat_level ≤ r'.min_threat_level) rs

module _ (t : TriggerType) (level confidence low : ℕ) where
  from_above :
      (rs : List InstinctRule)
      → All (λ r. Applies t level confidence r → low < r.min_threat_level) rs
      → All (λ r. Applies t level confidence r → low ≤ r.min_threat_level) rs
  from_above [] h = tt
  from_above (r ∷ rs) (h, hs) = (λ a. (let lt = h a in omega arith), from_above rs hs)

  none_apply :
      (rs : List InstinctRule)
      → All (λ r. r.min_threat_level ≤ low) rs
      → All (λ r. Applies t level confidence r → low < r.min_threat_level) rs
      → All (λ r. applies t level confidence r ≡ false) rs
  none_apply [] k h = tt
  none_apply (r ∷ rs) (k, ks) (h, hs) = (
    elim (Bool-cases (applies t level confidence r)) [
      | inl a ↦ absurd (let lt = h a in omega arith)
      | inr a ↦ a
    ],
    none_apply rs ks hs,
  )

best_reaction_lem :
    (rs : List InstinctRule) (t : TriggerType) (level confidence best_level : ℕ)
    (best : ReactionType)
    → let found = best_reaction rs t level confidence best_level best in
      ((found ≡ best)
        × All (λ r. Applies t level confidence r → best_level < r.min_threat_level) rs)
      ⊎ ((r : InstinctRule) × (found ≡ r.reaction)
          × (r.min_threat_level ≤ best_level)
          × IsLeast rs t level confidence r)
unfolding best_reaction
best_reaction_lem [] t level confidence best_level best = inl (refl, tt)
best_reaction_lem (r ∷ rs) t level confidence best_level best =
    elim (Bool-cases (applies t level confidence r && leb r.min_threat_level best_level)) [
      | inl e ↦ rw e (elim (best_reaction_lem rs t level confidence r.min_threat_level r.reaction) [
        | inl (same, above) ↦ inr (
          r,
          same,
          ground (arith, e),
          record {
            listed = Memᴰ.head refl;
            fits = ground (arith, e);
            least = (λ _. omega arith, from_above t level confidence r.min_threat_level rs above);
          },
        )
        | inr (r', same, le, l) ↦ inr (
          r',
          same,
          ground (arith, e),
          record { listed = Memᴰ.tail l.listed; fits = l.fits; least = (λ _. le, l.least) },
        )
      ])
      | inr e ↦ rw e (elim (best_reaction_lem rs t level confidence best_level best) [
        | inl (same, above) ↦ inl (same, (λ a. ground (arith, e, a), above))
        | inr (r', same, le, l) ↦ inr (
          r',
          same,
          le,
          record {
            listed = Memᴰ.tail l.listed;
            fits = l.fits;
            least = (λ a. ground (arith, e, a, le), l.least);
          },
        )
      ])
    ]

-- The reaction is that of a rule for the trigger which applies and asks for the lowest level of all
-- that apply, or, where no rule applies, to watch more closely.
reaction-IsLeast :
    (t : TriggerType) (level confidence : ℕ)
    → let found = get_reaction t level confidence in
      ((found ≡ intensify_watch) × All (λ r. applies t level confidence r ≡ false) instinct_rules)
      ⊎ ((r : InstinctRule) × (found ≡ r.reaction) × IsLeast instinct_rules t level confidence r)
unfolding get_reaction
reaction-IsLeast t level confidence =
    elim (best_reaction_lem instinct_rules t level confidence 255 intensify_watch) [
      | inl (same, above) ↦
          inl (same, none_apply t level confidence 255 instinct_rules (ground arith) above)
      | inr (r, same, le, l) ↦ inr (r, same, l)
    ]

-- The reaction to a trigger at a given threat level does not depend on that level, except for a
-- suspected ROP chain, which no rule covers at DORMANT.
reaction_level_blind :
    (t : TriggerType) (level confidence : ℕ)
    → t ≢ mem_rop_chain
    → get_reaction t level confidence ≡ get_reaction t 0 confidence
unfolding get_reaction best_reaction
reaction_level_blind t level confidence h = ground arith
