-- ===== src/Periphery/Repair.antt =====
-- The repair of code in memory (regen-baremetal/src/hotpatch.c): a function's first five bytes become
-- a jump to another. Memory is a function from addresses to bytes.
pub mod Jump
use operating_organism.Prelude.{u32, u64, sub_u64, ℕ, ◌+◌, ◌/◌, ◌%◌, ◌^◌}
use operating_organism.Bus.{update}

-- `(int32_t)(replacement - target - 5)`, by its bits
abbrev pub offset : ℕ → ℕ → ℕ
offset target replacement = u32 (sub_u64 replacement (u64 (target + 5)))

-- `regen_hotpatch`: 0xE9, and the bytes of the offset, the lowest first.
unfoldable pub hotpatch : (ℕ → ℕ) → ℕ → ℕ → ℕ → ℕ
hotpatch memory target replacement =
    let d = offset target replacement in
    let m₀ = update memory target 0xE9 in
    let m₁ = update m₀ (target + 1) (d % 256) in
    let m₂ = update m₁ (target + 2) (d / 2 ^ 8 % 256) in
    let m₃ = update m₂ (target + 3) (d / 2 ^ 16 % 256) in update m₃ (target + 4) (d / 2 ^ 24 % 256)
