-- ===== src/Prelude/Xor.antt =====
-- `^` at variables: it undoes itself, so that two words with the same image are the same.
use Prim.Native.Nat.{digits, differ, bit_xor-bitwise}
use native.Mathlib.Nat.{pow-suc}
use operating_organism.Prelude.{
  ℕ, zero, suc, ◌+◌, ◌*◌, ◌/◌, ◌%◌, ◌^◌, ◌≤◌, ◌<◌, bit_xor, ◌≡◌, refl, sym, ap, ◌∙◌, arith,
}

abbrev xor_digits : ℕ → ℕ → ℕ → ℕ
xor_digits n a b = digits (λ (y : ℕ). y) differ n a b

xor_digits_fuel : (n m a b : ℕ) → a ≤ n → a ≤ m → xor_digits n a b ≡ xor_digits m a b
xor_digits_fuel zero zero a b p q = refl
xor_digits_fuel zero (suc m) zero b p q = refl
xor_digits_fuel zero (suc m) (suc a) b p q = absurd (omega arith)
xor_digits_fuel (suc n) zero zero b p q = refl
xor_digits_fuel (suc n) zero (suc a) b p q = absurd (omega arith)
xor_digits_fuel (suc n) (suc m) zero b p q = refl
xor_digits_fuel (suc n) (suc m) (suc a) b p q =
    omega (arith, xor_digits_fuel n m (suc a / 2) (b / 2) (omega arith) (omega arith))

zero-bit_xor : (b : ℕ) → bit_xor 0 b ≡ b
zero-bit_xor b = bit_xor-bitwise 0 b

differ_zero : (b : ℕ) → differ 0 b ≡ b
differ_zero b = refl

bit_xor_step : (a b : ℕ) → bit_xor a b ≡ bit_xor (a / 2) (b / 2) * 2 + differ (a % 2) (b % 2)
bit_xor_step zero b = omega (arith, zero-bit_xor b, zero-bit_xor (b / 2), differ_zero (b % 2))
bit_xor_step (suc a) b = omega (
  arith,
  bit_xor-bitwise (suc a) b,
  bit_xor-bitwise (suc a / 2) (b / 2),
  xor_digits_fuel a (suc a / 2) (suc a / 2) (b / 2) (omega arith) (omega arith),
)

-- The facts on single digits.
differ_self : (x : ℕ) → differ x x ≡ 0
differ_self zero = refl
differ_self (suc x) = differ_self x

differ_small : (x y : ℕ) → x < 2 → y < 2 → differ x y < 2
differ_small zero y p q = q
differ_small (suc x) zero p q = p
differ_small (suc x) (suc y) p q = differ_small x y (omega arith) (omega arith)

differ_twice : (x y : ℕ) → x < 2 → y < 2 → differ (differ x y) y ≡ x
differ_twice zero y p q = differ_self y
differ_twice (suc x) zero p q = refl
differ_twice (suc zero) (suc zero) p q = refl
differ_twice (suc zero) (suc (suc y)) p q = absurd (omega arith)
differ_twice (suc (suc x)) (suc y) p q = absurd (omega arith)

xor_self_fuel : (n b : ℕ) → b ≤ n → bit_xor b b ≡ 0
xor_self_fuel n zero h = zero-bit_xor 0
xor_self_fuel zero (suc b) h = absurd (omega arith)
xor_self_fuel (suc n) (suc b) h = omega (
  arith,
  bit_xor_step (suc b) (suc b),
  xor_self_fuel n (suc b / 2) (omega arith),
  differ_self (suc b % 2),
)

-- A word against itself.
bit_xor_self : (b : ℕ) → bit_xor b b ≡ 0
bit_xor_self b = xor_self_fuel b b (omega arith)

twice_fuel : (n a b : ℕ) → a ≤ n → bit_xor (bit_xor a b) b ≡ a
twice_fuel n zero b h = ap (λ (x : ℕ). bit_xor x b) (zero-bit_xor b) ∙ bit_xor_self b
twice_fuel zero (suc a) b h = absurd (omega arith)
twice_fuel (suc n) (suc a) b h =
    let x = bit_xor (suc a) b in
    let low = differ_small (suc a % 2) (b % 2) (omega arith) (omega arith) in
    let half : x / 2 ≡ bit_xor (suc a / 2) (b / 2) = omega (arith, bit_xor_step (suc a) b, low) in
    let digit : x % 2 ≡ differ (suc a % 2) (b % 2) = omega (arith, bit_xor_step (suc a) b, low) in
    let rest : bit_xor (x / 2) (b / 2) ≡ suc a / 2 =
      ap (λ (y : ℕ). bit_xor y (b / 2)) half ∙ twice_fuel n (suc a / 2) (b / 2) (omega arith) in
    let last : differ (x % 2) (b % 2) ≡ suc a % 2 =
      ap (λ (y : ℕ). differ y (b % 2)) digit
      ∙ differ_twice (suc a % 2) (b % 2) (omega arith) (omega arith) in
    omega (arith, bit_xor_step x b, rest, last)

-- A key applied twice gives the word back.
bit_xor_twice : (a b : ℕ) → bit_xor (bit_xor a b) b ≡ a
bit_xor_twice a b = twice_fuel a a b (omega arith)

pub bit_xor-cancel_right : (a b k : ℕ) → bit_xor a k ≡ bit_xor b k → a ≡ b
bit_xor-cancel_right a b k h =
    sym (bit_xor_twice a k) ∙ ap (λ (x : ℕ). bit_xor x k) h ∙ bit_xor_twice b k

differ_right_zero : (x : ℕ) → differ x 0 ≡ x
differ_right_zero zero = refl
differ_right_zero (suc x) = refl

differ_comm : (x y : ℕ) → differ x y ≡ differ y x
differ_comm zero zero = refl
differ_comm zero (suc y) = refl
differ_comm (suc x) zero = refl
differ_comm (suc x) (suc y) = differ_comm x y

bit_xor-zero_fuel : (n a : ℕ) → a ≤ n → bit_xor a 0 ≡ a
bit_xor-zero_fuel n zero h = zero-bit_xor 0
bit_xor-zero_fuel zero (suc a) h = absurd (omega arith)
bit_xor-zero_fuel (suc n) (suc a) h = omega (
  arith,
  bit_xor_step (suc a) 0,
  bit_xor-zero_fuel n (suc a / 2) (omega arith),
  differ_right_zero (suc a % 2),
)

comm_fuel : (n a b : ℕ) → a ≤ n → bit_xor a b ≡ bit_xor b a
comm_fuel n zero b h = zero-bit_xor b ∙ sym (bit_xor-zero_fuel b b (omega arith))
comm_fuel zero (suc a) b h = absurd (omega arith)
comm_fuel (suc n) (suc a) b h = omega (
  arith,
  bit_xor_step (suc a) b,
  bit_xor_step b (suc a),
  comm_fuel n (suc a / 2) (b / 2) (omega arith),
  differ_comm (suc a % 2) (b % 2),
)

bit_xor_comm : (a b : ℕ) → bit_xor a b ≡ bit_xor b a
bit_xor_comm a b = comm_fuel a a b (omega arith)

pub bit_xor-cancel_left : (a b k : ℕ) → bit_xor k a ≡ bit_xor k b → a ≡ b
bit_xor-cancel_left a b k h = bit_xor-cancel_right a b k (bit_xor_comm a k ∙ h ∙ bit_xor_comm k b)

pub bit_xor_zero : (a : ℕ) → bit_xor a 0 ≡ a
bit_xor_zero a = bit_xor-zero_fuel a a (omega arith)

-- The exclusive or of two words is a word of their width.
pub bit_xor_small : (k a b : ℕ) → a < 2 ^ k → b < 2 ^ k → bit_xor a b < 2 ^ k
bit_xor_small zero a b h l =
    let none : a ≡ 0 = omega (arith, h) in
    omega (arith, l, ap (λ x. bit_xor x b) none, zero-bit_xor b)
bit_xor_small (suc k) a b h l =
    let double = pow-suc 2 k in
    omega (
      arith,
      bit_xor_step a b,
      bit_xor_small k (a / 2) (b / 2) (omega (arith, h, double)) (omega (arith, l, double)),
      differ_small (a % 2) (b % 2) (omega arith) (omega arith),
      double,
    )
