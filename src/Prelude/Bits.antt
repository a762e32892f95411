-- ===== src/Prelude/Bits.antt =====
-- `|` of fields that do not overlap is their sum.
use Prim.Native.Nat.{max, digits, bit_or-bitwise}
use operating_organism.Prelude.{
  ℕ, zero, suc, ◌+◌, ◌*◌, ◌/◌, ◌^◌, ◌≤◌, ◌<◌, bit_or, ◌≡◌, refl, ◌∙◌, arith,
}
use native.Mathlib.Nat.{le_refl, pow-suc}

-- The binary digits of `a`, each against a 0, for any fuel that `a` does not exceed.
alone : (fuel a : ℕ) → a ≤ fuel → digits (λ (y : ℕ). y) max fuel a 0 ≡ a
alone zero zero h = refl
alone zero (suc a) h = absurd (omega arith)
alone (suc fuel) zero h = refl
alone (suc fuel) (suc a) h = omega (arith, alone fuel (suc a / 2) (omega arith))

twice : (k q : ℕ) → q * 2 ^ suc k ≡ 2 * (q * 2 ^ k)
twice k q = rw (pow-suc 2 k) (omega arith)

-- The digits of `a`, whose `k` lowest are 0, against the digits of an `r` of `k` bits.
beside :
    (k fuel q a r : ℕ)
    → a ≡ q * 2 ^ k
    → r < 2 ^ k
    → a ≤ fuel
    → digits (λ (y : ℕ). y) max fuel a r ≡ a + r
beside zero fuel q a zero e fits h = omega (arith, alone fuel a h)
beside zero fuel q a (suc r) e fits h = absurd (omega arith)
beside (suc k) zero q zero r e fits h = omega arith
beside (suc k) zero q (suc a) r e fits h = absurd (omega arith)
beside (suc k) (suc fuel) q zero r e fits h = omega arith
beside (suc k) (suc fuel) q (suc a) r e fits h =
    let half : suc a ≡ 2 * (q * 2 ^ k) = e ∙ twice k q in
    let rest =
      beside k fuel q (suc a / 2) (r / 2) (omega arith) (omega (arith, pow-suc 2 k))
        (omega arith) in
    ground (arith, rest, half)

-- `(q << k) | r` for an `r` of `k` bits.
pub bit_or_fields : (k q r : ℕ) → r < 2 ^ k → bit_or (q * 2 ^ k) r ≡ q * 2 ^ k + r
bit_or_fields k q r fits =
    simp bit_or-bitwise (beside k (q * 2 ^ k) q (q * 2 ^ k) r refl fits (le_refl _))

-- The digits of an `a` of `k` bits, against those of the power above them.
under :
    (k fuel a b : ℕ) → b ≡ 2 ^ k → a < 2 ^ k → a ≤ fuel → digits (λ (y : ℕ). y) max fuel a b ≡ a + b
under k zero zero b e fits h = omega arith
under k zero (suc a) b e fits h = absurd (omega arith)
under k (suc fuel) zero b e fits h = omega arith
under zero (suc fuel) (suc a) b e fits h = absurd (omega arith)
under (suc k) (suc fuel) (suc a) b e fits h =
    let double = pow-suc 2 k in
    let rest =
      under k fuel (suc a / 2) (b / 2) (omega (arith, e, double)) (omega (arith, fits, double))
        (omega arith) in
    ground (arith, rest, e, double)

-- `a | (1 << k)` for an `a` of `k` bits.
pub bit_or_top : (k a : ℕ) → a < 2 ^ k → bit_or a (2 ^ k) ≡ a + 2 ^ k
bit_or_top k a fits = simp bit_or-bitwise (under k a a (2 ^ k) refl fits (le_refl _))
