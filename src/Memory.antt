-- ===== src/Memory.antt =====
-- memory-baremetal/src/bio_alloc.c: the cells of 4096 bytes, their bitmap, and its operations.
pub mod Cells
pub mod Alloc
pub mod Tissue
pub mod Blocks
pub mod Hedged
pub mod Channels
pub mod Examples
use operating_organism.Prelude.{
  ltb, leb, ◌==◌, if◌then◌else◌, not, take, u32, u64, ℕ, zero, suc, ◌+◌, ◌-◌, ◌*◌, ◌/◌, ◌%◌, ◌^◌,
  bit_and, bit_or, Bool, true, false, ◌&&◌, ◌||◌, Option, none, some,
}
use operating_organism.Bus.{GlobuleType, Globule, Bus, update, pump, signal}

abbrev pub cell_size : ℕ
cell_size = 4096

abbrev pub bitmap_max_cells : ℕ
bitmap_max_cells = 102400

-- The statics of the component; the bitmap is an array of bytes, as a function of the index.
pub record Memory : Type 0 where
  pub mem_base : ℕ
  pub mem_total : ℕ
  pub cell_bitmap : ℕ → ℕ

-- The mask `1 << (index % 8)`.
abbrev mask : ℕ → ℕ
mask index = 2 ^ (index % 8)

abbrev pub set_bit : (ℕ → ℕ) → ℕ → ℕ → ℕ
set_bit bits index = update bits (index / 8) (bit_or (bits (index / 8)) (mask index))

-- `&= ~mask`, on a byte.
abbrev pub clear_bit : (ℕ → ℕ) → ℕ → ℕ → ℕ
clear_bit bits index = update bits (index / 8) (bit_and (bits (index / 8)) (255 - mask index))

abbrev pub test_bit : (ℕ → ℕ) → ℕ → Bool
test_bit bits index = not (bit_and (bits (index / 8)) (mask index) == 0)

-- `bio_mem_init`
unfoldable pub mem_init : ℕ → ℕ → Memory
mem_init base total = record { mem_base = base; mem_total = total; cell_bitmap = λ i. 0 }

-- The address of a cell: the product has 32 bits, the sum has 64.
abbrev pub address : ℕ → ℕ → ℕ
address base i = u64 (base + u32 (i * cell_size))

-- The loop of `bio_allocate_cell` over `n` cells from `i` on, with the address given out so far (0
-- for none) and the count of free cells.
unfoldable pub allocate_loop : ℕ → ℕ → ℕ → (ℕ → ℕ) → ℕ → ℕ → (ℕ → ℕ) × ℕ × ℕ
allocate_loop zero i base bits allocated free = (bits, allocated, free)
allocate_loop (suc n) i base bits allocated free =
    let used = test_bit bits i in
    let take = not used && allocated == 0 in
    allocate_loop n (i + 1) base (if take then set_bit bits i else bits)
      (if take then address base i else allocated)
      (if not used && not (allocated == 0) then free + 1 else free)

-- `bio_allocate_cell` on `cells` cells: the new memory and bus, and the address, or 0. The globule
-- on low memory has fields that no code sets; they are those of `junk`, the stack's content.
unfoldable pub allocate_cell : ℕ → Memory → Bus → Globule → Memory × Bus × ℕ
unfolding allocate_loop
allocate_cell cells m b junk =
    let (bits, allocated, free) = allocate_loop cells 0 m.mem_base m.cell_bitmap 0 0 in
    (
      record m { cell_bitmap = bits },
      if ltb free (cells / 20)
          then (pump b (record junk { type = GlobuleType.yellow; target_organ = 3 })).0
          else b,
      allocated,
    )

-- `bio_free_cell` on `cells` cells
unfoldable pub free_cell : ℕ → Memory → ℕ → Memory
free_cell cells m addr =
    let index = u32 ((addr - m.mem_base) / cell_size) in
    if leb m.mem_base addr && ltb index cells
    then record m { cell_bitmap = clear_bit m.cell_bitmap index }
    else m

-- Set `n` bits from `j` on.
pub set_bits : ℕ → ℕ → (ℕ → ℕ) → ℕ → ℕ
set_bits zero j bits = bits
set_bits (suc n) j bits = set_bits n (j + 1) (set_bit bits j)

-- The loop of `bio_allocate_neural_tissue` over `n` cells from `i` on: the index of the block.
unfoldable pub find_block : ℕ → ℕ → (ℕ → ℕ) → ℕ → ℕ → ℕ → Option ℕ
find_block zero i bits needed run start = none
find_block (suc n) i bits needed run start =
    let start' = if run == 0 then i else start in
    let rest = find_block n (i + 1) bits needed (run + 1) start' in
    let again = find_block n (i + 1) bits needed 0 start in
    if test_bit bits i then again else (if run + 1 == needed then some start' else rest)

abbrev pub cells_for : ℕ → ℕ
cells_for size = u32 (u64 (size + cell_size - 1) / cell_size)

-- `bio_allocate_neural_tissue` on `cells` cells: the new memory, and the address, or 0.
unfoldable pub allocate_tissue : ℕ → Memory → ℕ → Memory × ℕ
unfolding find_block set_bits
allocate_tissue cells m size = elim (find_block cells 0 m.cell_bitmap (cells_for size) 0 0) [
  | none ↦ (m, 0)
  | some start ↦ (
    record m { cell_bitmap = set_bits (cells_for size) start m.cell_bitmap },
    address m.mem_base start,
  )
]

-- Clear the bits of `n` cells from `i` on, as far as they are cells.
pub clear_bits : ℕ → ℕ → ℕ → (ℕ → ℕ) → ℕ → ℕ
clear_bits cells zero i bits = bits
clear_bits cells (suc n) i bits =
    clear_bits cells n (i + 1) (if ltb i cells then clear_bit bits i else bits)

-- `bio_purge_infected_tissue` on `cells` cells: the bitmap. Clearing the bytes of a cell is outside
-- the model. The end of the block is a 32-bit sum.
unfoldable pub purge_tissue : ℕ → Memory → ℕ → ℕ → Memory
unfolding clear_bits
purge_tissue cells m addr size =
    if ltb addr m.mem_base
    then m
    else let start = u32 ((addr - m.mem_base) / cell_size) in
      record m {
        cell_bitmap = clear_bits cells (u32 (start + cells_for size) - start) start m.cell_bitmap;
      }

-- `bio_apoptosis`
unfoldable pub apoptosis : ℕ → Memory → ℕ → ℕ → Memory
apoptosis cells m addr size = purge_tissue cells m addr size

-- `bio_consolidate_memory`, which releases the first cell whatever the size.
unfoldable consolidate : ℕ → Memory → ℕ → ℕ → Memory
consolidate cells m addr size = free_cell cells m addr

-- `bio_map_cell`: the new bus, and whether it answers 0 rather than -1.
unfoldable map_cell : Memory → Bus → ℕ → ℕ → Bus × Bool
map_cell m b physical_addr flags =
    if ltb physical_addr m.mem_base || leb (u64 (m.mem_base + m.mem_total)) physical_addr
    then (b, false)
    else (if flags == 0
        then (b, false)
        else ((pump b (record (signal GlobuleType.yellow 4 0) { target_organ = 255 })).0, true))
