-- ===== src/Memory/Blocks.antt =====
-- Allocation and purge of blocks of cells.
use operating_organism.Prelude.{
  ltb, leb, ◌==◌, if◌then◌else◌, not, Bool-cases, Option-cases, u32, ℕ, zero, suc, ◌+◌, ◌-◌, ◌*◌,
  ◌/◌, ◌^◌, ◌≤◌, ◌<◌, ◌≡◌, refl, sym, ap, ◌∙◌, ◌≢◌, inl, inr, Bool, true, false, ◌&&◌, ◌||◌, none,
  arith,
}
use operating_organism.Memory.{
  cell_size, bitmap_max_cells, Memory, set_bit, clear_bit, test_bit, set_bits, find_block,
  cells_for, allocate_tissue, clear_bits, purge_tissue, apoptosis,
}
use operating_organism.Memory.Cells.{AreBytes, set-AreBytes, clear-AreBytes, test-set, test-clear}
use operating_organism.Memory.Alloc.{InReach, address_lem}
use operating_organism.Memory.Tissue.{AreFree, find_block_lem}

-- Cell `j` is one of the `n` cells from `start` on.
abbrev pub inside : ℕ → ℕ → ℕ → Bool
inside start n j = leb start j && ltb j (start + n)

-- Setting the bits of a block marks its cells, clearing them frees its cells, and no others.
set_bits_lem :
    (n start : ℕ) (bits : ℕ → ℕ)
    → AreBytes bits
    → AreBytes (set_bits n start bits)
      × ((j : ℕ) → test_bit (set_bits n start bits) j ≡ (inside start n j || test_bit bits j))
unfolding set_bits
set_bits_lem zero start bits v = (v, λ j. ground arith)
set_bits_lem (suc n) start bits v =
    let (v', sets) = set_bits_lem n (start + 1) (set_bit bits start) (set-AreBytes bits v start) in
    (v', λ j. sets j ∙ rw (test-set bits v start j) (ground arith))

pub clear_bits_lem :
    (cells n start : ℕ) (bits : ℕ → ℕ)
    → AreBytes bits
    → start + n ≤ cells
    → AreBytes (clear_bits cells n start bits)
      × ((j : ℕ)
          → test_bit (clear_bits cells n start bits) j
            ≡ (not (inside start n j) && test_bit bits j))
unfolding clear_bits
clear_bits_lem cells zero start bits v h = (v, λ j. ground arith)
clear_bits_lem cells (suc n) start bits v h =
    let here : ltb start cells ≡ true = ground (arith, h) in
    let (v', clears) =
      clear_bits_lem cells n (start + 1) (clear_bit bits start) (clear-AreBytes bits v start)
        (omega arith) in
    rw here (v', λ j. clears j ∙ rw (test-clear bits v start j) (ground arith))

-- The outcome of an allocation of `needed` cells: a block that was free, now marked, or none.
pub data Block (cells base needed : ℕ) (bits bits' : ℕ → ℕ) (addr : ℕ) : Type 0 where
  none_free :
      addr ≡ 0
      → bits' ≡ bits
      → ((start : ℕ) → start + needed ≤ cells → AreFree bits start needed → ⊥)
      → Block cells base needed bits bits' addr
  given :
      (start : ℕ)
      → start + needed ≤ cells
      → addr ≡ base + start * cell_size
      → AreFree bits start needed
      → ((j : ℕ) → test_bit bits' j ≡ (inside start needed j || test_bit bits j))
      → Block cells base needed bits bits' addr

-- The allocation by the number of cells that the code computes.
pub allocate_tissue_lem :
    (cells : ℕ) (m : Memory) (size : ℕ)
    → InReach cells m
    → 0 < cells_for size
    → let (m', addr) = allocate_tissue cells m size in
      Block cells m.mem_base (cells_for size) m.cell_bitmap m'.cell_bitmap addr × InReach cells m'
unfolding allocate_tissue
allocate_tissue_lem cells m size v h =
    let (found, same, sound, complete) =
      find_block_lem cells cells 0 m.cell_bitmap (cells_for size) 0 0 (omega arith) h (omega arith)
        (λ z. omega arith) (λ j lo hi. absurd (omega arith)) in
    elim (Option-cases found) [
      | inl e ↦
          rw (allocate_tissue, same, e)
            (none_free refl refl (λ s hi all. complete e s (omega arith) hi all), v)
      | inr (start, e) ↦
          rw (allocate_tissue, same, e)
            (let (fits, free) = sound start e in
              let (bytes, sets) = set_bits_lem (cells_for size) start m.cell_bitmap v.bytes in
              (
                given start fits (address_lem cells m start v (omega arith)) free sets,
                record { few = v.few; above = v.above; fits = v.fits; bytes = bytes },
              ))
    ]

count_of : (start n : ℕ) → start + n ≤ bitmap_max_cells → u32 (start + n) - start ≡ n
count_of start n h = omega arith

pub purge_lem :
    (cells start size : ℕ) (m : Memory)
    → InReach cells m
    → start + cells_for size ≤ cells
    → purge_tissue cells m (m.mem_base + start * cell_size) size
      ≡ record m { cell_bitmap = clear_bits cells (cells_for size) start m.cell_bitmap }
unfolding purge_tissue
purge_lem cells start size m v h =
    let index : u32 ((m.mem_base + start * cell_size - m.mem_base) / cell_size) ≡ start =
      omega (arith, v.few) in
    let above : ltb (m.mem_base + start * cell_size) m.mem_base ≡ false = ground arith in
    rw (above, index, count_of start (cells_for size) (omega (arith, v.few))) refl

block_once :
    (bits : ℕ → ℕ) (start n j : ℕ)
    → AreFree bits start n
    → (not (inside start n j) && (inside start n j || test_bit bits j)) ≡ test_bit bits j
block_once bits start n j free = elim (Bool-cases (inside start n j)) [
  | inl e ↦ rw e (sym (free j (ground (arith, e)) (ground (arith, e))))
  | inr e ↦ rw e refl
]

pub kept_base :
    (cells : ℕ) (m : Memory) (size : ℕ) → (allocate_tissue cells m size).0.mem_base ≡ m.mem_base
unfolding allocate_tissue
kept_base cells m size =
    elim (Option-cases (find_block cells 0 m.cell_bitmap (cells_for size) 0 0)) [
      | inl e ↦ rw (allocate_tissue, e) refl
      | inr (start, e) ↦ rw (allocate_tissue, e) refl
    ]

-- The cells for a size, rounded up, where 32 bits hold their number.
cells_for_lem :
    (size : ℕ)
    → 0 < size
    → size ≤ 2 ^ 44 - cell_size
    → (0 < cells_for size)
      × (size ≤ cells_for size * cell_size)
      × (cells_for size * cell_size < size + cell_size)
cells_for_lem size l h = (omega (arith, l, h), omega (arith, l, h), omega (arith, l, h))

-- In a memory within reach, of at most 102400 cells based above 0 and with 2^32 addresses behind
-- its base, an allocation of tissue of 1 to 2^44 - 4096 bytes looks for the least number of cells
-- that hold them. It gives the address of a block of so many cells, all free before and all
-- marked after, and touches no other cell; it fails only if there is no such block, wherever it
-- begins. Memory stays within reach.
pub tissue_lem :
    (cells : ℕ) (m : Memory) (size : ℕ)
    → InReach cells m
    → 0 < size
    → size ≤ 2 ^ 44 - 4096
    → let (m', addr) = allocate_tissue cells m size in
      (needed : ℕ) × (size ≤ needed * 4096)
      × (needed * 4096 < size + 4096)
      × Block cells m.mem_base needed m.cell_bitmap m'.cell_bitmap addr
      × InReach cells m'
tissue_lem cells m size v l h =
    let (some_cell, holds, least) = cells_for_lem size l h in
    let (block, v') = allocate_tissue_lem cells m size v some_cell in
    (cells_for size, holds, least, block, v')

-- No block of no cells is ever found.
find_block_zero : (n i : ℕ) (bits : ℕ → ℕ) (run start : ℕ) → find_block n i bits 0 run start ≡ none
unfolding find_block
find_block_zero zero i bits run start = refl
find_block_zero (suc n) i bits run start = elim (Bool-cases (test_bit bits i)) [
  | inl used ↦ rw used (find_block_zero n (i + 1) bits 0 start)
  | inr free ↦
      rw free
        (ground (arith, find_block_zero n (i + 1) bits (run + 1) (if run == 0 then i else start)))
]

none_for_nothing :
    (cells : ℕ) (m : Memory) (size : ℕ) → cells_for size ≡ 0 → (allocate_tissue cells m size).1 ≡ 0
unfolding allocate_tissue
none_for_nothing cells m size e =
    let nowhere : find_block cells 0 m.cell_bitmap (cells_for size) 0 0 ≡ none =
      ap (λ n. find_block cells 0 m.cell_bitmap n 0 0) e
      ∙ find_block_zero cells 0 m.cell_bitmap 0 0 in
    rw (allocate_tissue, nowhere) refl

purged_block :
    (cells : ℕ) (m : Memory) (size j : ℕ)
    → InReach cells m
    → 0 < cells_for size
    → let (m', addr) = allocate_tissue cells m size in
      addr ≢ 0 → test_bit (purge_tissue cells m' addr size).cell_bitmap j ≡ test_bit m.cell_bitmap j
purged_block cells m size j v h some_given =
    let m' = (allocate_tissue cells m size).0 in
    let (block, v') = allocate_tissue_lem cells m size v h in
    elim block [
      | none_free none_given same none_there ↦ absurd (some_given none_given)
      | given start fits at free sets ↦
          let (_, clears) =
            clear_bits_lem cells (cells_for size) start m'.cell_bitmap v'.bytes fits in
          let at' = at ∙ ap (λ b. b + start * cell_size) (sym (kept_base cells m size)) in
          rw (at', purge_lem cells start size m' v' fits)
            (clears j ∙ rw (sets j) (block_once m.cell_bitmap start (cells_for size) j free))
    ]

-- In a memory within reach, of at most 102400 cells based above 0 and with 2^32 addresses behind
-- its base, tissue of any size that was allocated is free again to the last cell, and every other
-- cell is as it was, whether the tissue is purged or dies by apoptosis.
pub purge-allocate :
    (cells : ℕ) (m : Memory) (size j : ℕ)
    → InReach cells m
    → let (m', addr) = allocate_tissue cells m size in
      addr ≢ 0
      → (test_bit (purge_tissue cells m' addr size).cell_bitmap j ≡ test_bit m.cell_bitmap j)
        × (test_bit (apoptosis cells m' addr size).cell_bitmap j ≡ test_bit m.cell_bitmap j)
unfolding apoptosis
purge-allocate cells m size j v some_given =
    let h : 0 < cells_for size = elim (Bool-cases (ltb 0 (cells_for size))) [
      | inl some_cell ↦ ground (arith, some_cell)
      | inr no_cell ↦ absurd (some_given (none_for_nothing cells m size (ground (arith, no_cell))))
    ] in
    let purged = purged_block cells m size j v h some_given in (purged, purged)
