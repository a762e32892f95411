-- ===== src/Memory/Cells.antt =====
-- The bitmap as a set of cells, and single cells: what allocation and release do to the set.
use operating_organism.Prelude.{
  ltb, ◌==◌, not, Bool-cases, ℕ, zero, suc, ◌-◌, ◌/◌, ◌%◌, ◌^◌, ◌<◌, bit_and, bit_or, ◌≡◌, refl, ap,
  ◌∙◌, inl, inr, Bool, true, false, ◌&&◌, ◌||◌, arith,
}
use operating_organism.Memory.{set_bit, clear_bit, test_bit}

all_below : ℕ → (ℕ → Bool) → Bool
all_below zero p = true
all_below (suc n) p = p n && all_below n p

below : (n : ℕ) (p : ℕ → Bool) → all_below n p ≡ true → (i : ℕ) → i < n → p i ≡ true
unfolding all_below
below zero p e i h = absurd (omega arith)
below (suc n) p e i h = elim (Bool-cases (i == n)) [
  | inl eq ↦ rw (ap p {x = i} {y = n} (ground (arith, eq))) (ground (arith, e))
  | inr other ↦ below n p (ground (arith, e)) i (ground (arith, other))
]

-- Bit `k` of a byte.
abbrev bit : ℕ → ℕ → Bool
bit byte k = not (bit_and byte (2 ^ k) == 0)

abbrev same : Bool → Bool → Bool
same true b = b
same false b = not b

byte_ok : ℕ → ℕ → ℕ → Bool
byte_ok byte j k =
    same (bit (bit_or byte (2 ^ j)) k) (j == k || bit byte k)
    && (same (bit (bit_and byte (255 - 2 ^ j)) k) (not (j == k) && bit byte k)
        && (ltb (bit_or byte (2 ^ j)) 256 && ltb (bit_and byte (255 - 2 ^ j)) 256))

bytes_ok : all_below 256 (λ byte. all_below 8 (λ j. all_below 8 (λ k. byte_ok byte j k))) ≡ true
unfolding all_below byte_ok
bytes_ok = refl

-- The bits of a byte after one is set or cleared.
module _ (byte j k : ℕ) (hb : byte < 256) (hj : j < 8) (hk : k < 8) where
  bits_of : byte_ok byte j k ≡ true
  bits_of =
      below 8 (λ c. byte_ok byte j c)
        (below 8 (λ b. all_below 8 (λ c. byte_ok byte b c))
          (below 256 (λ a. all_below 8 (λ b. all_below 8 (λ c. byte_ok a b c))) bytes_ok byte hb) j
          hj)
        k hk

  bit-or : bit (bit_or byte (2 ^ j)) k ≡ (j == k || bit byte k)
  unfolding byte_ok
  bit-or = ground (arith, bits_of)

  bit-and : bit (bit_and byte (255 - 2 ^ j)) k ≡ (not (j == k) && bit byte k)
  unfolding byte_ok
  bit-and = ground (arith, bits_of)

  or_small : bit_or byte (2 ^ j) < 256
  unfolding byte_ok
  or_small = ground (arith, bits_of)

  and_small : bit_and byte (255 - 2 ^ j) < 256
  unfolding byte_ok
  and_small = ground (arith, bits_of)

-- Every entry of the bitmap is a byte.
abbrev pub AreBytes : (ℕ → ℕ) → Type 0
AreBytes bits = (i : ℕ) → bits i < 256

same_cell : (i j : ℕ) → (i == j) ≡ (i / 8 == j / 8 && i % 8 == j % 8)
same_cell i j = ground arith

module _ (bits : ℕ → ℕ) (v : AreBytes bits) (i : ℕ) where
  pub set-AreBytes : AreBytes (set_bit bits i)
  set-AreBytes k =
      ground (arith, v k, or_small (bits (i / 8)) (i % 8) 0 (v (i / 8)) (omega arith) (omega arith))

  pub clear-AreBytes : AreBytes (clear_bit bits i)
  clear-AreBytes k =
      ground
        (arith, v k, and_small (bits (i / 8)) (i % 8) 0 (v (i / 8)) (omega arith) (omega arith))

  -- Setting a bit marks this cell and no other, clearing it frees this cell and no other.
  pub test-set : (j : ℕ) → test_bit (set_bit bits i) j ≡ (i == j || test_bit bits j)
  test-set j = elim (Bool-cases (j / 8 == i / 8)) [
    | inl e ↦
        let byte : bits (j / 8) ≡ bits (i / 8) = ap bits (ground (arith, e)) in
        rw (e, byte)
          (bit-or (bits (i / 8)) (i % 8) (j % 8) (v (i / 8)) (omega arith) (omega arith)
            ∙ ground (arith, e))
    | inr e ↦ rw e (ground (arith, e))
  ]

  pub test-clear : (j : ℕ) → test_bit (clear_bit bits i) j ≡ (not (i == j) && test_bit bits j)
  test-clear j = elim (Bool-cases (j / 8 == i / 8)) [
    | inl e ↦
        let byte : bits (j / 8) ≡ bits (i / 8) = ap bits (ground (arith, e)) in
        rw (e, byte)
          (bit-and (bits (i / 8)) (i % 8) (j % 8) (v (i / 8)) (omega arith) (omega arith)
            ∙ ground (arith, e))
    | inr e ↦ rw e (ground (arith, e))
  ]
