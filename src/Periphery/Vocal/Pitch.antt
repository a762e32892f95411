-- ===== src/Periphery/Vocal/Pitch.antt =====
-- The tone that the timer plays.
use native.Mathlib.Nat.{div-lt_iff_lt-mul}
use operating_organism.Prelude.{
  ltb, ◌==◌, if◌then◌else◌, ltb→lt, Bool-cases, u8, u16, ℕ, ◌+◌, ◌*◌, ◌/◌, ◌%◌, ◌^◌, ◌≤◌, ◌<◌,
  bit_or, ◌≡◌, refl, ap, ◌∙◌, ◌↔◌, ◌⊎◌, inl, inr, Bool, true, false, ◌&&◌, List, [], ◌∷◌, arith,
}
use operating_organism.Periphery.Vocal.{emit_tone}

-- The second channel of the timer 8254: which byte of the divisor comes next, the low byte that has
-- come, and the divisor that is counted down.
pub record Timer : Type 0 where
  pub is_high : Bool
  pub low : ℕ
  pub divisor : ℕ

-- How many ticks of the timer one period takes: a divisor of 0 counts as 65536.
abbrev pub period : Timer → ℕ
period t = if t.divisor == 0 then 65536 else t.divisor

-- A write to a port: 0xB6 at 0x43 asks for a divisor in two bytes, which come at 0x42, the low one
-- first. Other ports are not the timer's.
abbrev pub write : Timer → ℕ × ℕ → Timer
write t (port, value) =
    if port == 0x43 && value == 0xB6
    then record t { is_high = false }
    else (if port == 0x42
        then (if t.is_high
            then record t { is_high = false; divisor = value * 256 + t.low }
            else record t { is_high = true; low = value })
        else t)

pub writes : Timer → List (ℕ × ℕ) → Timer
writes t [] = t
writes t (w ∷ ws) = writes (write t w) ws

-- What the speaker's gate is set to is not the timer's.
gate_kept :
    (t : Timer) (tmp : ℕ)
    → writes t (if tmp == bit_or tmp 3 then [] else (0x61, u8 (bit_or tmp 3)) ∷ []) ≡ t
unfolding writes
gate_kept t tmp = elim (Bool-cases (tmp == bit_or tmp 3)) [
  | inl same ↦ rw same refl
  | inr other ↦ rw other refl
]

-- The two bytes of any divisor, in their order.
played :
    (t : Timer) (q tmp : ℕ)
    → (writes t (
        (0x43, 0xB6)
        ∷ (0x42, u8 (q % 256))
        ∷ (0x42, u8 (q / 2 ^ 8 % 256))
        ∷ (if tmp == bit_or tmp 3 then [] else (0x61, u8 (bit_or tmp 3)) ∷ []))).divisor
      ≡ u16 q
unfolding writes
played t q tmp =
    ap (λ (u : Timer). u.divisor)
      (gate_kept
        (record {
          is_high = false;
          low = u8 (q % 256);
          divisor = u8 (q / 2 ^ 8 % 256) * 256 + u8 (q % 256);
        })
        tmp)
    ∙ omega arith

sounding :
    (frequency tmp : ℕ)
    → 0 < frequency
    → (t : Timer) → (writes t (emit_tone frequency tmp)).divisor ≡ u16 (1193180 / frequency)
unfolding emit_tone writes
sounding frequency tmp more t =
    let audible : (frequency == 0) ≡ false = ground (arith, more) in
    rw (emit_tone, audible) (played t (1193180 / frequency) tmp)

unless : (a b : ℕ) → (a < b → ⊥) → b ≤ a
unless a b h = elim (Bool-cases (ltb a b)) [
  | inl less ↦ absurd (h (ground (arith, less)))
  | inr more ↦ ground (arith, more)
]

-- A number of ticks that 16 bits can tell, with 0 for 65536.
fitting :
    (q : ℕ)
    → q < 65536 ⊎ 65536 < q
    → ((if u16 q == 0 then 65536 else u16 q) ≡ q) ↔ ((0 < q) × (q < 65536))
fitting q h = (λ e. ground (arith, h, e), λ r. ground (arith, r))

-- Whatever the timer was doing and whatever the speaker's port answers, a tone of a frequency above 0
-- leaves it with a divisor of 16 bits, the low ones of its rate through the frequency. The period
-- that it then plays is the rate through the frequency exactly for the frequencies from 19 to
-- 1193180 Hz: a lower one has its divisor cut, a higher one sounds as the lowest tone of all.
pub emit_tone_lem :
    (t : Timer) (frequency tmp : ℕ)
    → 0 < frequency
    → let t' = writes t (emit_tone frequency tmp) in
      (t'.divisor ≡ u16 (1193180 / frequency))
      × ((period t' ≡ 1193180 / frequency) ↔ ((19 ≤ frequency) × (frequency ≤ 1193180)))
      × (1193180 < frequency → period t' ≡ 65536)
emit_tone_lem t frequency tmp more =
    let sound = sounding frequency tmp more t in
    let q = 1193180 / frequency in
    let (small, fits) = div-lt_iff_lt-mul {x = 1193180} {y = 65536} more in
    let (smaller, wide) = div-lt_iff_lt-mul {x = 1193180} {y = 66287} more in
    let (none_left, nothing) = div-lt_iff_lt-mul {x = 1193180} {y = 1} more in
    let apart : q < 65536 ⊎ 65536 < q = elim (Bool-cases (ltb frequency 19)) [
      | inl low ↦ inr (
          omega (
            arith,
            unless q 66287 (λ l. absurd (omega (arith, smaller l, ltb→lt frequency 19 low))),
          ))
      | inr high ↦ inl (fits (ground (arith, high)))
    ] in
    let (to, from) = fitting q apart in
    rw sound (
      refl,
      (
        λ e.
            let (some_ticks, few) = to e in
            (
              omega (arith, small few),
              unless 1193180 frequency
                  (λ high. absurd (omega (arith, some_ticks, nothing (omega (arith, high))))),
            ),
        λ r.
            from (
              unless q 1 (λ l. absurd (omega (arith, none_left l, r.1))),
              fits (omega (arith, r.0)),
            ),
      ),
      λ high.
          let silent : q ≡ 0 = omega (arith, nothing (omega (arith, high))) in
          ground (arith, silent),
    )
