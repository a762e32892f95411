-- ===== src/Prelude/Words.antt =====
-- Unsigned C integers as native numbers: the operations wrap at the width.
use Prim.Native.Nat.{ℕ, ◌+◌, ◌-◌, ◌%◌, ◌<◌}
use mathlib.Core.Path.{◌≡◌}
use native.Mathlib.Nat.{mod-eq_of_lt, mod_self}
use native.Mathlib.Omega.{arith}

abbrev pub u8 : ℕ → ℕ
u8 n = n % 256

abbrev pub u16 : ℕ → ℕ
u16 n = n % 65536

abbrev pub u32 : ℕ → ℕ
u32 n = n % 4294967296

abbrev pub u64 : ℕ → ℕ
u64 n = n % 18446744073709551616

-- a - b at a width of 32 and of 64 bits, for operands below the modulus.
abbrev pub sub_u32 : ℕ → ℕ → ℕ
sub_u32 a b = (a + 4294967296 - b) % 4294967296

abbrev pub sub_u64 : ℕ → ℕ → ℕ
sub_u64 a b = (a + 18446744073709551616 - b) % 18446744073709551616

-- The step of a ring index: `(i + 1) % n` at 32 bits, inside the ring and at its end.
module _ (i n : ℕ) (small : n < 4294967296) where
  pub ring_next : i + 1 < n → u32 (i + 1) % n ≡ i + 1
  ring_next h = rw fits (mod-eq_of_lt h)
    where
      fits : u32 (i + 1) ≡ i + 1
      fits = omega arith

  pub ring_wrap : i + 1 ≡ n → u32 (i + 1) % n ≡ 0
  ring_wrap h = rw fits (mod_self n)
    where
      fits : u32 (i + 1) ≡ n
      fits = omega arith
