-- ===== src/Memory/Examples.antt =====
-- Runs of the allocator, and its theorems at concrete states.
use operating_organism.Bus as Bus
use operating_organism.Prelude.{ℕ, ◌+◌, ◌*◌, ◌≤◌, ◌<◌, ◌≡◌, refl, arith}
use operating_organism.Memory.{
  bitmap_max_cells, Memory, test_bit, mem_init, allocate_loop, allocate_cell, find_block,
  allocate_tissue, purge_tissue, apoptosis,
}
use operating_organism.Memory.Alloc.{InReach}
use operating_organism.Memory.Blocks.{Block, tissue_lem, purge-allocate}
use operating_organism.Bus.{GlobuleType, Globule, Bus, signal}

abbrev fresh : Memory
fresh = mem_init 0x100000 0x100000

fresh-InReach : (cells : ℕ) → cells ≤ bitmap_max_cells → InReach cells fresh
unfolding mem_init
fresh-InReach cells h = record {
  few = h;
  above = omega arith;
  fits = omega arith;
  bytes = λ i. omega arith;
}

abbrev junk : Globule
junk = signal GlobuleType.red 9 9

abbrev quiet : Bus
quiet = Bus.boot junk

-- Two cells of 64, and after them a block of three.
runs :
    let (m₁, _, a) = allocate_cell 64 fresh quiet junk in
    let (m₂, _, b) = allocate_cell 64 m₁ quiet junk in
    (a ≡ 0x100000) × (b ≡ 0x101000) × ((allocate_tissue 64 m₂ 9000).1 ≡ 0x102000)
unfolding mem_init allocate_cell allocate_tissue find_block allocate_loop
runs = (refl, refl, refl)

tissue_example :
    let (m', addr) = allocate_tissue bitmap_max_cells fresh 9000 in
    (needed : ℕ) × (9000 ≤ needed * 4096)
    × (needed * 4096 < 9000 + 4096)
    × Block bitmap_max_cells fresh.mem_base needed fresh.cell_bitmap m'.cell_bitmap addr
    × InReach bitmap_max_cells m'
tissue_example =
    tissue_lem bitmap_max_cells fresh 9000 (fresh-InReach bitmap_max_cells (omega arith))
      (omega arith) (omega arith)

purge-allocate_example :
    let (m', addr) = allocate_tissue 64 fresh 9000 in
    (test_bit (purge_tissue 64 m' addr 9000).cell_bitmap 2 ≡ test_bit fresh.cell_bitmap 2)
    × (test_bit (apoptosis 64 m' addr 9000).cell_bitmap 2 ≡ test_bit fresh.cell_bitmap 2)
unfolding mem_init allocate_tissue find_block
purge-allocate_example =
    purge-allocate 64 fresh 9000 2 (fresh-InReach 64 (omega arith)) (λ z. ground (arith, z))
