-- ===== src/Memory/Hedged/Ownership.antt =====
-- No cell has two owners, whatever is allocated, written, read and freed.
pub mod Growth
pub mod Release
pub mod Lives
use operating_organism.Prelude.{
  ◌==◌, ==_iff, Bool-cases, ℕ, zero, suc, ◌+◌, ◌-◌, ◌*◌, ◌/◌, ◌≤◌, ◌<◌, ◌≡◌, refl, sym, ap, ◌∙◌,
  ◌≢◌, inl, inr, Bool, true, false, some, arith,
}
use operating_organism.Memory.{cell_size, test_bit, cells_for}
use operating_organism.Memory.Alloc.{InReach}
use operating_organism.Memory.Blocks.{inside}
use operating_organism.Memory.Hedged.{
  max_allocations, Allocation, Hedge, total_size, find_from, find,
}

-- The cells of an allocation: the first, how many, and whether one is among them.
abbrev pub index_of : ℕ → Allocation → ℕ
index_of base a = (a.base_address - base) / cell_size

abbrev pub cells_of : Allocation → ℕ
cells_of a = cells_for (total_size a)

abbrev pub owns : ℕ → Allocation → ℕ → Bool
owns base a j = inside (index_of base a) (cells_of a) j

-- It stands where its first cell does, and its last cell is one.
abbrev pub Placed : ℕ → ℕ → Allocation → Type 0
Placed cells base a =
    (a.base_address ≡ base + index_of base a * cell_size) × (index_of base a + cells_of a ≤ cells)

-- Every allocation has a block of cells that are marked, and no two share a cell.
pub record Owned (cells base count : ℕ) (f : ℕ → Allocation) (bits : ℕ → ℕ) : Type 0 where
  pub placed : (i : ℕ) → i < count → Placed cells base (f i)
  pub marked : (i j : ℕ) → i < count → owns base (f i) j ≡ true → test_bit bits j ≡ true
  pub apart :
      (i k j : ℕ)
      → i < count
      → k < count
      → i ≢ k
      → owns base (f i) j ≡ true
      → owns base (f k) j ≡ false

pub record IsSound (cells : ℕ) (h : Hedge) : Type 0 where
  pub reach : InReach cells h.memory
  pub few : h.allocation_count ≤ max_allocations
  pub owned : Owned cells h.memory.mem_base h.allocation_count h.allocations h.memory.cell_bitmap

find_from_lem :
    (left i : ℕ) (f : ℕ → Allocation) (ptr k : ℕ)
    → find_from left i f ptr ≡ some k
    → (i ≤ k) × (k < i + left) × ((f k).base_address ≡ ptr)
unfolding find_from
find_from_lem zero i f ptr k e = cc
find_from_lem (suc left) i f ptr k e = elim (Bool-cases ((f i).base_address == ptr)) [
  | inl here ↦
      let step : find_from (suc left) i f ptr ≡ some i = rw (here, find_from) refl in
      let same : i ≡ k = cc (sym step ∙ e) in
      (
        omega arith,
        omega arith,
        ap (λ t. (f t).base_address) (sym same) ∙ (==_iff (f i).base_address ptr).0 here,
      )
  | inr other ↦
      let step : find_from (suc left) i f ptr ≡ find_from left (i + 1) f ptr =
        rw (other, find_from) refl in
      let later = find_from_lem left (i + 1) f ptr k (sym step ∙ e) in
      (omega (arith, later.0), omega (arith, later.1), later.2)
]

-- What the search finds is an allocation in use, at the address.
pub find_lem :
    (h : Hedge) (ptr i : ℕ)
    → find h ptr ≡ some i
    → (i < h.allocation_count) × ((h.allocations i).base_address ≡ ptr)
find_lem h ptr i e =
    let found = find_from_lem h.allocation_count 0 h.allocations ptr i e in
    (omega (arith, found.1), found.2)
