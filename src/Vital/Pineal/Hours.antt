-- ===== src/Vital/Pineal/Hours.antt =====
-- How the clock is read in its four modes.
use operating_organism.Prelude.{
  leb, ◌==◌, if◌then◌else◌, Bool-cases, ℕ, zero, suc, ◌+◌, ◌*◌, ◌/◌, ◌%◌, ◌≤◌, ◌<◌, bit_and, ◌≡◌,
  refl, ap, ◌∙◌, ◌≢◌, inl, inr, Bool, true, false, ◌&&◌, arith,
}
use operating_organism.Vital.Regulator.{yin}
use operating_organism.Vital.Spark.{Spark, shift_balance}
use operating_organism.Vital.Pineal.{bcd_to_binary, hour_of, align, sync}

-- A test that holds of all numbers below `n`.
holds_below : ℕ → (ℕ → Bool) → Bool
holds_below zero p = true
holds_below (suc n) p = p n && holds_below n p

holds_below_lem : (n t : ℕ) (p : ℕ → Bool) → holds_below n p ≡ true → t < n → p t ≡ true
unfolding holds_below
holds_below_lem zero t p h l = absurd (omega (arith, l))
holds_below_lem (suc n) t p h l = elim (Bool-cases (t == n)) [
  | inl same ↦ ground (arith, h, same)
  | inr other ↦ holds_below_lem n t p (ground (arith, h)) (ground (arith, l, other))
]

-- The two digits of a number as the clock keeps them.
abbrev pub bcd : ℕ → ℕ
bcd t = t / 10 * 16 + t % 10

bcd-exact : (t : ℕ) → t < 24 → bcd_to_binary (bcd t) ≡ t
unfolding bcd_to_binary holds_below
bcd-exact t l = ground (arith, holds_below_lem 24 t (λ x. bcd_to_binary (bcd x) == x) refl l)

abbrev late : ℕ → Bool
late hours = leb 22 hours && bit_and hours 0x80 == 0

afternoon_late : (t : ℕ) → t < 13 → late (bcd_to_binary (bcd t + 128)) ≡ true
unfolding bcd_to_binary holds_below
afternoon_late t l = holds_below_lem 13 t (λ x. late (bcd_to_binary (bcd x + 128))) refl l

module _ (register reg_b : ℕ) where
  hour_bcd :
      (bit_and reg_b 0x04 == 0) ≡ true
      → (bit_and reg_b 0x02 == 0) ≡ false
      → hour_of register reg_b ≡ bcd_to_binary register
  unfolding hour_of
  hour_bcd e f = rw (hour_of, e, f) refl

  hour_binary :
      (bit_and reg_b 0x04 == 0) ≡ false
      → (bit_and reg_b 0x02 == 0) ≡ false
      → hour_of register reg_b ≡ register
  unfolding hour_of
  hour_binary e f = rw (hour_of, e, f) refl

  hour_unmarked :
      (bit_and reg_b 0x04 == 0) ≡ true
      → (bit_and (bcd_to_binary register) 0x80 == 0) ≡ true
      → hour_of register reg_b ≡ bcd_to_binary register
  unfolding hour_of
  hour_unmarked e f = ground (arith, e, f)

align_late : (s : Spark) (hours : ℕ) → 22 ≤ hours → align s hours ≡ shift_balance s yin 30
unfolding align
align_late s hours l = ground (arith, l)

is_zero : (n : ℕ) → n ≡ 0 → (n == 0) ≡ true
is_zero n e = ground (arith, e)

not_zero : (n : ℕ) → n ≢ 0 → (n == 0) ≡ false
not_zero n e = ground (arith, e)

-- The hour of a clock of 24 hours, in either code.
hour_full :
    (t full : ℕ)
    → t < 24
    → (bit_and full 0x02 == 0) ≡ false
    → hour_of (if bit_and full 0x04 == 0 then bcd t else t) full ≡ t
hour_full t full l whole =
    elim (Bool-cases (bit_and full 0x04 == 0))
      as (λ _. hour_of (if bit_and full 0x04 == 0 then bcd t else t) full ≡ t) [
        | inl in_bcd ↦
            ap (λ (b : Bool). hour_of (if b then bcd t else t) full) in_bcd
            ∙ hour_bcd (bcd t) full in_bcd whole
            ∙ bcd-exact t l
        | inr plain ↦
            ap (λ (b : Bool). hour_of (if b then bcd t else t) full) plain
            ∙ hour_binary t full plain whole
      ]

-- A clock of 24 hours is read right, in binary and in BCD. A clock of 12 hours in BCD has its
-- afternoon taken for night, whatever the hour: the conversion turns the mark of the afternoon into
-- eighty hours.
pub sync_lem :
    (s : Spark) (t u full half : ℕ)
    → t < 24
    → u < 13
    → bit_and full 0x02 ≢ 0
    → bit_and half 0x02 ≡ 0
    → bit_and half 0x04 ≡ 0
    → (sync s (if bit_and full 0x04 == 0 then bcd t else t) full ≡ align s t)
      × (sync s (bcd u + 128) half ≡ shift_balance s yin 30)
unfolding sync
sync_lem s t u full half l k whole twelve coded = (
  ap (align s) (hour_full t full l (not_zero _ whole)),
  ap (align s) (hour_unmarked (bcd u + 128) half (is_zero _ coded) (ground (arith, late_hour)))
      ∙ align_late s (bcd_to_binary (bcd u + 128)) (ground (arith, late_hour)),
)
  where
    late_hour : late (bcd_to_binary (bcd u + 128)) ≡ true
    late_hour = afternoon_late u k
