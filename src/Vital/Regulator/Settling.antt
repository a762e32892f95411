-- ===== src/Vital/Regulator/Settling.antt =====
-- How fast the regulated parameters come back to their targets.
use operating_organism.Prelude.{
  ltb, ◌==◌, if◌then◌else◌, Bool-cases, u32, sub_u32, ℕ, zero, suc, ◌+◌, ◌-◌, ◌*◌, ◌^◌, ◌≤◌, ◌<◌,
  ◌≡◌, refl, sym, ap, ◌∙◌, inl, inr, arith,
}
use operating_organism.Vital.Regulator.{VitalParam, clamp, amount, regulate_param}
use mathlib.Core.Path.{subst}

-- A parameter in its zone of life, with a target in it, too.
pub record IsSound (p : VitalParam) : Type 0 where
  pub low : p.min_viable ≤ p.target
  pub high : p.target ≤ p.max_viable
  pub small : p.max_viable < 2 ^ 31
  pub above : p.min_viable ≤ p.value
  pub below : p.value ≤ p.max_viable

-- How far the value is from its target.
abbrev pub error : VitalParam → ℕ
error p = if ltb p.value p.target then p.target - p.value else p.value - p.target

-- The value after a regulation, without the wrap-around and the bounds, which play no part.
abbrev toward : VitalParam → ℕ
toward p =
    if ltb p.value p.target
    then p.value + amount p.correction_rate (p.target - p.value)
    else p.value - amount p.correction_rate (p.value - p.target)

toward_lem :
    (p : VitalParam)
    → IsSound p
    → (p.min_viable ≤ toward p)
      × (toward p ≤ p.max_viable)
      × (error (record p { value = toward p }) ≡ error p - p.correction_rate)
toward_lem p v = (ground (arith, v.low, v.above), ground (arith, v.high, v.below), ground arith)

clamp_id : (p : VitalParam) → p.min_viable ≤ p.value → p.value ≤ p.max_viable → clamp p ≡ p
clamp_id p lo hi = ground (arith, lo, hi)

exact :
    (p : VitalParam)
    → IsSound p
    → (if ltb p.value p.target
        then u32 (p.value + amount p.correction_rate (p.target - p.value))
        else sub_u32 p.value (amount p.correction_rate (p.value - p.target)))
      ≡ toward p
exact p v = ground (arith, v.small, v.below, v.high)

regulated : (p : VitalParam) → IsSound p → regulate_param p ≡ record p { value = toward p }
unfolding regulate_param
regulated p v =
    let (lo, hi, _) = toward_lem p v in
    elim (Bool-cases (p.value == p.target)) [
      | inl e ↦
          rw (regulate_param, e)
            (ap (λ n. record p { value = n }) {x = p.value} {y = toward p} (ground (arith, e)))
      | inr e ↦ rw (regulate_param, e, exact p v) (clamp_id (record p { value = toward p }) lo hi)
    ]

less_none : (e r : ℕ) → e ≡ e - 0 * r
less_none e r = omega arith

one_more : (n e r a b : ℕ) → a ≡ e - n * r → b ≡ r → a - b ≡ e - suc n * r
one_more n e r a b h k = omega arith

-- What one regulation makes of a parameter.
abbrev Follows : VitalParam → VitalParam → Type 0
Follows p p' =
    IsSound p'
    × (p'.target ≡ p.target)
    × (p'.correction_rate ≡ p.correction_rate)
    × (error p' ≡ error p - p.correction_rate)

regulate-Follows : (p : VitalParam) → IsSound p → Follows p (regulate_param p)
regulate-Follows p v =
    let (lo, hi, less) = toward_lem p v in
    subst (λ p'. Follows p p') (sym (regulated p v))
      (
        record { low = v.low; high = v.high; small = v.small; above = lo; below = hi },
        refl,
        refl,
        less,
      )

-- `n` regulations.
pub regulations : ℕ → VitalParam → VitalParam
regulations zero p = p
regulations (suc n) p = regulate_param (regulations n p)

-- After `n` regulations a parameter in its zone of life is off its target by `n` times the rate less
-- than before, or on it: so it settles, and it never overshoots. It is in its zone all the time.
pub regulations_settle :
    (n : ℕ) (p : VitalParam)
    → IsSound p
    → let p' = regulations n p in
      IsSound p'
      × (p'.target ≡ p.target)
      × (p'.correction_rate ≡ p.correction_rate)
      × (error p' ≡ error p - n * p.correction_rate)
unfolding regulations
regulations_settle zero p v = (v, refl, refl, less_none (error p) p.correction_rate)
regulations_settle (suc n) p v =
    let (sound, same, rate, off) = regulations_settle n p v in
    let (sound', same', rate', off') = regulate-Follows (regulations n p) sound in
    (sound', same' ∙ same, rate' ∙ rate, off' ∙ one_more n (error p) p.correction_rate _ _ off rate)
