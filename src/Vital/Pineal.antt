-- ===== src/Vital/Pineal.antt =====
-- The pineal gland (vital-baremetal/src/pineal_gland.c): the hour of the real-time clock moves the
-- tension. What the ports answer is an argument; the wait for a stable clock is left out.
pub mod Hours
use operating_organism.Prelude.{
  ltb, leb, ◌==◌, if◌then◌else◌, not, u8, ℕ, ◌+◌, ◌/◌, ◌%◌, ◌<◌, bit_and, ◌&&◌, arith,
}
use operating_organism.Vital.Regulator.{yin, yang}
use operating_organism.Vital.Spark.{Spark, shift_balance, shift_balance_small}

-- `bcd_to_binary`
unfoldable pub bcd_to_binary : ℕ → ℕ
bcd_to_binary bcd = u8 (bit_and bcd 0xF0 / 2 + bit_and bcd 0xF0 / 8 + bit_and bcd 0x0F)

-- The hour that `vital_pineal_gland_sync` makes of the register of hours and of register B.
unfoldable pub hour_of : ℕ → ℕ → ℕ
unfolding bcd_to_binary
hour_of register reg_b =
    let hours = if bit_and reg_b 0x04 == 0 then bcd_to_binary register else register in
    if bit_and reg_b 0x02 == 0 && not (bit_and hours 0x80 == 0)
    then (bit_and hours 0x7F + 12) % 24
    else hours

-- The choice by the hour.
unfoldable pub align : Spark → ℕ → Spark
unfolding shift_balance
align s hours =
    if leb 6 hours && ltb hours 12
    then shift_balance s yang 20
    else if leb 12 hours && ltb hours 18
    then shift_balance s yang 5
    else if leb 18 hours && ltb hours 22
    then shift_balance s yin 15
    else shift_balance s yin 30

-- `vital_pineal_gland_sync`, with what the clock answers for its hours and its register B.
unfoldable pub sync : Spark → ℕ → ℕ → Spark
unfolding align hour_of
sync s register reg_b = align s (hour_of register reg_b)

pub align_small : (s : Spark) (hours : ℕ) → s.tension < 256 → (align s hours).tension < 256
unfolding align
align_small s hours h = ground (
  arith,
  shift_balance_small s yang 20 h,
  shift_balance_small s yang 5 h,
  shift_balance_small s yin 15 h,
  shift_balance_small s yin 30 h,
)
