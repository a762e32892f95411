-- ===== src/Memory/Alloc.antt =====
-- Allocation and release of one cell.
use operating_organism.Prelude.{
  ◌==◌, not, Bool-cases, u32, ℕ, zero, suc, ◌+◌, ◌-◌, ◌*◌, ◌/◌, ◌^◌, ◌≤◌, ◌<◌, ◌≡◌, refl, sym, ap,
  ◌∙◌, ◌≢◌, inl, inr, true, false, ◌&&◌, ◌||◌, arith,
}
use operating_organism.Memory.{
  cell_size, bitmap_max_cells, Memory, set_bit, clear_bit, test_bit, address, allocate_loop,
  allocate_cell, free_cell,
}
use operating_organism.Memory.Cells.{AreBytes, set-AreBytes, test-set, test-clear}
use operating_organism.Bus.{Globule, Bus}

-- Memory is based above address 0, in reach of 64-bit addresses, and within the bitmap.
pub record InReach (cells : ℕ) (m : Memory) : Type 0 where
  pub few : cells ≤ bitmap_max_cells
  pub above : 0 < m.mem_base
  pub fits : m.mem_base + 2 ^ 32 ≤ 2 ^ 64
  pub bytes : AreBytes m.cell_bitmap

-- Addresses of cells within reach are exact, and none is 0.
pub address_lem :
    (cells : ℕ) (m : Memory) (i : ℕ)
    → InReach cells m
    → i < cells
    → address m.mem_base i ≡ m.mem_base + i * cell_size
address_lem cells m i v h = omega (arith, v.few, v.above, v.fits)

-- With an address in hand, the rest of the loop only counts.
loop_done :
    (n i base : ℕ) (bits : ℕ → ℕ) (allocated free : ℕ)
    → allocated ≢ 0
    → let (bits', allocated', free') = allocate_loop n i base bits allocated free in
      (bits' ≡ bits) × (allocated' ≡ allocated)
unfolding allocate_loop
loop_done zero i base bits allocated free h = (refl, refl)
loop_done (suc n) i base bits allocated free h =
    let given : (allocated == 0) ≡ false = ground (arith, h) in
    elim (Bool-cases (test_bit bits i)) [
      | inl used ↦ rw (allocate_loop, given, used) (loop_done n (i + 1) base bits allocated free h)
      | inr unused ↦
          rw (allocate_loop, given, unused) (loop_done n (i + 1) base bits allocated (free + 1) h)
    ]

-- The outcome of a search from cell `i` to the end: the first free cell `k`, or none.
pub data Outcome (cells base i : ℕ) (bits bits' : ℕ → ℕ) (found : ℕ) : Type 0 where
  full :
      found ≡ 0
      → bits' ≡ bits
      → ((j : ℕ) → i ≤ j → j < cells → test_bit bits j ≡ true)
      → Outcome cells base i bits bits' found
  taken :
      (k : ℕ)
      → i ≤ k
      → k < cells
      → found ≡ base + k * cell_size
      → test_bit bits k ≡ false
      → ((j : ℕ) → i ≤ j → j < k → test_bit bits j ≡ true)
      → ((j : ℕ) → test_bit bits' j ≡ (k == j || test_bit bits j))
      → AreBytes bits'
      → Outcome cells base i bits bits' found

loop_lem :
    (cells n i : ℕ) (m : Memory)
    → InReach cells m
    → i + n ≡ cells
    → let (bits', found, free') = allocate_loop n i m.mem_base m.cell_bitmap 0 0 in
      Outcome cells m.mem_base i m.cell_bitmap bits' found
unfolding allocate_loop
loop_lem cells zero i m v e = full refl refl (λ j h k. absurd (omega arith))
loop_lem cells (suc n) i m v e = elim (Bool-cases (test_bit m.cell_bitmap i)) [
  | inl used ↦
      rw (allocate_loop, used)
        (elim (loop_lem cells n (i + 1) m v (omega arith)) [
          | full none_found same above ↦
              full none_found same (λ j lo hi. used_from j lo (λ h. above j h hi) used)
          | taken k lo hi at was before now bytes ↦
              taken k (omega arith) hi at was
                (λ j lo' hi'. used_from j lo' (λ h. before j h hi') used) now bytes
        ])
  | inr free ↦
      rw (allocate_loop, free)
        (let base_i = address_lem cells m i v (omega arith) in
          let (same, at) =
            loop_done n (i + 1) m.mem_base (set_bit m.cell_bitmap i) (address m.mem_base i) 0
              (λ z. (let a = v.above in omega arith)) in
          taken i (omega arith) (omega arith) (at ∙ base_i) free (λ j lo hi. absurd (omega arith))
            (λ j. rw same (test-set m.cell_bitmap v.bytes i j))
            (rw same (set-AreBytes m.cell_bitmap v.bytes i)))
]
  where
    used_from :
        (j : ℕ)
        → i ≤ j
        → (i + 1 ≤ j → test_bit m.cell_bitmap j ≡ true)
        → test_bit m.cell_bitmap i ≡ true
        → test_bit m.cell_bitmap j ≡ true
    used_from j lo later here = elim (Bool-cases (i == j)) [
      | inl same ↦ ap (test_bit m.cell_bitmap) (ground (arith, same)) ∙ here
      | inr other ↦ later (ground (arith, other))
    ]

-- An allocation of a cell gives the address of the first free cell and marks this cell and no
-- other; where no cell is free it gives 0 and leaves the bitmap as it is. Memory stays within reach.
allocate_cell_lem :
    (cells : ℕ) (m : Memory) (b : Bus) (junk : Globule)
    → InReach cells m
    → let (m', _, addr) = allocate_cell cells m b junk in
      Outcome cells m.mem_base 0 m.cell_bitmap m'.cell_bitmap addr × InReach cells m'
unfolding allocate_cell
allocate_cell_lem cells m b junk v =
    let found = loop_lem cells cells 0 m v (omega arith) in
    (
      found,
      record {
        few = v.few;
        above = v.above;
        fits = v.fits;
        bytes = elim found [
          | full z same all ↦ rw same v.bytes
          | taken k lo hi at was before now bytes ↦ bytes
        ];
      },
    )

free_lem :
    (cells k : ℕ) (m : Memory)
    → InReach cells m
    → k < cells
    → free_cell cells m (m.mem_base + k * cell_size)
      ≡ record m { cell_bitmap = clear_bit m.cell_bitmap k }
unfolding free_cell
free_lem cells k m v h =
    let index : u32 ((m.mem_base + k * cell_size - m.mem_base) / cell_size) ≡ k =
      omega (arith, v.few) in
    rw index (ground (arith, h))

once :
    (bits : ℕ → ℕ) (k j : ℕ)
    → test_bit bits k ≡ false
    → (not (k == j) && (k == j || test_bit bits j)) ≡ test_bit bits j
once bits k j was = elim (Bool-cases (k == j)) [
  | inl e ↦ rw e (sym was ∙ ap (test_bit bits) (ground (arith, e)))
  | inr e ↦ rw e refl
]

-- A cell that was allocated and is released is free again, and every other cell is as it was.
free-allocate :
    (cells : ℕ) (m : Memory) (b : Bus) (junk : Globule) (j : ℕ)
    → InReach cells m
    → let (m', _, addr) = allocate_cell cells m b junk in
      addr ≢ 0 → test_bit (free_cell cells m' addr).cell_bitmap j ≡ test_bit m.cell_bitmap j
unfolding allocate_cell
free-allocate cells m b junk j v given =
    let m' = (allocate_cell cells m b junk).0 in
    let (found, v') = allocate_cell_lem cells m b junk v in
    elim found [
      | full none_found same above ↦ absurd (given none_found)
      | taken k lo hi at was before now bytes ↦
          rw (at, free_lem cells k m' v' hi)
            (test-clear m'.cell_bitmap bytes k j ∙ rw (now j) (once m.cell_bitmap k j was))
    ]
