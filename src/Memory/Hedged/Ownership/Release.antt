-- ===== src/Memory/Hedged/Ownership/Release.antt =====
-- An allocation less, and the lives of all.
use mathlib.Core.Path.{subst}
use native.Mathlib.Decide.{ℕ_discrete}
use operating_organism.Prelude.{
  ltb, ◌==◌, if◌then◌else◌, not, Option-cases, ℕ, ◌+◌, ◌-◌, ◌≤◌, ◌<◌, ◌≡◌, sym, ap, ◌∙◌, ◌≢◌, inl,
  inr, true, false, ◌&&◌, some, arith,
}
use operating_organism.Memory.{test_bit, clear_bits, purge_tissue}
use operating_organism.Memory.Cells.{AreBytes}
use operating_organism.Memory.Blocks.{clear_bits_lem, purge_lem}
use operating_organism.Memory.Hedged.{Allocation, Hedge, put, total_size, find, free}
use operating_organism.Memory.Hedged.Ownership.{index_of, cells_of, owns, Owned, IsSound, find_lem}
use operating_organism.Memory.Hedged.Ownership.Growth.{Owned-same}

-- Where the entry `k` stands before `i` is taken out: the last one has moved there.
abbrev moved : ℕ → ℕ → ℕ → ℕ
moved i last k = if i == k then last else k

module _ (i last : ℕ) (i_in : i ≤ last) where
  moved_in : (k : ℕ) → k < last → moved i last k ≤ last
  moved_in k hk = ground arith

  moved_ne : (k : ℕ) → k < last → moved i last k ≢ i
  moved_ne k hk = ground arith

  moved_inj : (k j : ℕ) → k < last → j < last → k ≢ j → moved i last k ≢ moved i last j
  moved_inj k j hk hj ne = ground (arith, ne)

  swapped :
      (f : ℕ → Allocation) (k : ℕ)
      → k < last
      → (if ltb i last then put f i (f last) else f) k ≡ f (moved i last k)
  swapped f k hk = ground arith

module _ (cells base last : ℕ) (bits : ℕ → ℕ) (f : ℕ → Allocation) (i : ℕ) (i_in : i ≤ last)
    (v : Owned cells base (last + 1) f bits) (bytes : AreBytes bits) where
  cleared : ℕ → ℕ
  cleared = clear_bits cells (cells_of (f i)) (index_of base (f i)) bits

  clears : (j : ℕ) → test_bit cleared j ≡ (not (owns base (f i) j) && test_bit bits j)
  unfolding cleared
  clears =
      (clear_bits_lem cells (cells_of (f i)) (index_of base (f i)) bits bytes
        (v.placed i (omega arith)).1).1

  still_marked : (k j : ℕ) → k ≤ last → k ≢ i → owns base (f k) j ≡ true → test_bit cleared j ≡ true
  still_marked k j hk ne own =
      let other = v.apart k i j (omega arith) (omega arith) ne own in
      clears j ∙ rw other (v.marked k j (omega arith) own)

  rest-Owned : Owned cells base last (λ k. f (moved i last k)) cleared
  rest-Owned = record {
    placed = λ k hk. v.placed (moved i last k) (omega (arith, moved_in i last i_in k hk));
    marked = λ k j hk own.
        still_marked (moved i last k) j (moved_in i last i_in k hk) (moved_ne i last i_in k hk) own;
    apart = λ k l j hk hl ne own.
        v.apart (moved i last k) (moved i last l) j (omega (arith, moved_in i last i_in k hk))
          (omega (arith, moved_in i last i_in l hl)) (moved_inj i last i_in k l hk hl ne) own;
  }

  Owned-release :
      Owned cells base last
        (if ltb i last then put f i (f last) else f)
        (clear_bits cells (cells_of (f i)) (index_of base (f i)) bits)
  unfolding cleared
  Owned-release =
      Owned-same (λ k. f (moved i last k)) (if ltb i last then put f i (f last) else f)
        (swapped i last i_in f) rest-Owned

module _ (cells : ℕ) (h : Hedge) (ptr : ℕ) (v : IsSound cells h) where
  purged :
      (i : ℕ)
      → i < h.allocation_count
      → (h.allocations i).base_address ≡ ptr
      → let a = h.allocations i in
        purge_tissue cells h.memory ptr (total_size a) ≡ record h.memory {
          cell_bitmap =
              clear_bits cells (cells_of a) (index_of h.memory.mem_base a) h.memory.cell_bitmap;
        }
  purged i hi at =
      let a = h.allocations i in
      let (place, inside_memory) = v.owned.placed i hi in
      ap (λ p. purge_tissue cells h.memory p (total_size a)) (sym at ∙ place)
      ∙ purge_lem cells (index_of h.memory.mem_base a) (total_size a) h.memory v.reach inside_memory

  -- The step once the allocation is found.
  free_found : (i : ℕ) → find h ptr ≡ some i → ptr ≢ 0 → IsSound cells (free cells h ptr)
  unfolding free
  free_found i found some_ptr =
      let (hi, at) = find_lem h ptr i found in
      let a = h.allocations i in
      let last = h.allocation_count - 1 in
      let count : h.allocation_count ≡ last + 1 = omega arith in
      let given : (ptr == 0) ≡ false = ground (arith, some_ptr) in
      let all =
        subst (λ n. Owned cells h.memory.mem_base n h.allocations h.memory.cell_bitmap) count
          v.owned in
      let cleared_bytes =
        (clear_bits_lem cells (cells_of a) (index_of h.memory.mem_base a) h.memory.cell_bitmap
          v.reach.bytes (v.owned.placed i hi).1).0 in
      rw (given, found, purged i hi at, free)
        (record {
          reach = record {
            few = v.reach.few;
            above = v.reach.above;
            fits = v.reach.fits;
            bytes = cleared_bytes;
          };
          few = omega (arith, v.few);
          owned =
              Owned-release cells h.memory.mem_base last h.memory.cell_bitmap h.allocations i
                (omega arith) all v.reach.bytes;
        })

  pub free-IsSound : IsSound cells (free cells h ptr)
  unfolding free
  free-IsSound = elim (ℕ_discrete ptr 0) [
    | yes e ↦ let null : (ptr == 0) ≡ true = ground arith in rw (null, free) v
    | no some_ptr ↦
        let given : (ptr == 0) ≡ false = ground (arith, some_ptr) in
        elim (Option-cases (find h ptr)) [
          | inl missing ↦ rw (given, missing, free) v
          | inr (i, found) ↦ free_found i found some_ptr
        ]
  ]
