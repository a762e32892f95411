-- ===== src/Periphery/Repair/Jump.antt =====
-- Where the processor goes from a patched function.
use operating_organism.Prelude.{
  ltb, leb, ◌==◌, if◌then◌else◌, u32, u64, sub_u64, ℕ, ◌+◌, ◌-◌, ◌*◌, ◌^◌, ◌≤◌, ◌<◌, ◌≡◌, ◌↔◌, ◌⊎◌,
  Bool, true, ◌||◌, Option, none, some, arith,
}
use operating_organism.Periphery.Repair.{offset, hotpatch}

-- The four bytes of an operand, and its sign extended to 64 bits.
abbrev pub operand : (ℕ → ℕ) → ℕ → ℕ
operand memory a =
    memory (a + 1) + 2 ^ 8 * memory (a + 2) + 2 ^ 16 * memory (a + 3) + 2 ^ 24 * memory (a + 4)

abbrev extended : ℕ → ℕ
extended d = if ltb d (2 ^ 31) then d else d + (2 ^ 64 - 2 ^ 32)

-- The instruction at an address: `none` if it is not a near jump, else where it leads.
pub step : (ℕ → ℕ) → ℕ → Option ℕ
step memory a = if memory a == 0xE9 then some (u64 (a + 5 + extended (operand memory a))) else none

-- A distance from the end of the jump that 32 bits with a sign can tell: from 2^31 backwards, which
-- they can, to 2^31 ahead, which they cannot.
abbrev pub is_near : ℕ → ℕ → Bool
is_near target replacement =
    let d = sub_u64 replacement (u64 (target + 5)) in ltb d (2 ^ 31) || leb (2 ^ 64 - 2 ^ 31) d

operand_lem :
    (memory : ℕ → ℕ) (target replacement : ℕ)
    → operand (hotpatch memory target replacement) target ≡ offset target replacement
unfolding hotpatch
operand_lem memory target replacement = ground arith

-- Where the patched function leads, without the memory.
abbrev lands : ℕ → ℕ → ℕ
lands target replacement = u64 (target + 5 + extended (offset target replacement))

lands_near :
    (target replacement : ℕ)
    → target + 5 ≤ 2 ^ 64
    → replacement < 2 ^ 64
    → (lands target replacement ≡ replacement) ↔ (is_near target replacement ≡ true)
lands_near target replacement t r = (λ e. ground arith, λ n. ground arith)

patched_step :
    (memory : ℕ → ℕ) (target replacement : ℕ)
    → step (hotpatch memory target replacement) target ≡ some (lands target replacement)
unfolding step hotpatch
patched_step memory target replacement = ground (arith, operand_lem memory target replacement)

-- A patched function starts with a near jump, wherever the replacement is. The jump leads to an
-- address with the replacement's low 32 bits, and to the replacement itself exactly if that is at
-- most 2 GiB before the end of the jump, or less than 2 GiB behind it, round the end of memory too;
-- a farther one is missed. Five bytes are written, and no other.
pub hotpatch_lem :
    (memory : ℕ → ℕ) (target replacement : ℕ)
    → target + 5 ≤ 2 ^ 64
    → replacement < 2 ^ 64
    → let patched = hotpatch memory target replacement in
      (landing : ℕ) × (step patched target ≡ some landing)
      × (u32 landing ≡ u32 replacement)
      × ((landing ≡ replacement) ↔ (is_near target replacement ≡ true))
      × ((a : ℕ) → a < target ⊎ target + 5 ≤ a → patched a ≡ memory a)
unfolding hotpatch
hotpatch_lem memory target replacement t r = (
  lands target replacement,
  patched_step memory target replacement,
  ground arith,
  lands_near target replacement t r,
  λ a away. ground arith,
)
