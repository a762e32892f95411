-- ===== src/Memory/Hedged/Ownership/Growth.antt =====
-- An allocation more.
use mathlib.Core.Path.{subst}
use native.Mathlib.Decide.{ℕ_discrete}
use operating_organism.Prelude.{
  ltb, leb, ◌==◌, if◌then◌else◌, Bool-cases, u64, ℕ, zero, suc, ◌+◌, ◌*◌, ◌≤◌, ◌<◌, ◌≡◌, refl, sym,
  ap, ◌∙◌, ◌≢◌, inl, inr, true, false, ◌||◌, none, arith,
}
use operating_organism.Memory.{cell_size, Memory, test_bit, find_block, cells_for, allocate_tissue}
use operating_organism.Memory.Alloc.{InReach}
use operating_organism.Memory.Blocks.{inside, Block, allocate_tissue_lem, kept_base}
use operating_organism.Memory.Hedged.{
  max_allocations, max_replicas, Allocation, Hedge, put, entry, enter, malloc,
}
use operating_organism.Memory.Hedged.Ownership.{index_of, cells_of, owns, Placed, Owned, IsSound}
use operating_organism.Memory.Tissue.{AreFree}

-- The entries after a write at the end.
put_old : (f : ℕ → Allocation) (n k : ℕ) (a : Allocation) → k < n → put f n a k ≡ f k
put_old f n k a h = let other : (n == k) ≡ false = ground (arith, h) in rw other refl

put_new : (f : ℕ → Allocation) (n : ℕ) (a : Allocation) → put f n a n ≡ a
put_new f n a = let here : (n == n) ≡ true = ground arith in rw here refl

put_at : (f : ℕ → Allocation) (n k : ℕ) (a : Allocation) → n ≡ k → put f n a k ≡ a
put_at f n k a e = let here : (n == k) ≡ true = ground arith in rw here refl

-- Entries that agree are owned alike.
pub Owned-same :
    {cells base n : ℕ} {bits : ℕ → ℕ} (f g : ℕ → Allocation)
    → ((k : ℕ) → k < n → g k ≡ f k)
    → Owned cells base n f bits
    → Owned cells base n g bits
Owned-same {cells} {base} {n} {bits} f g same v = record {
  placed = λ i hi. subst (Placed cells base) (sym (same i hi)) (v.placed i hi);
  marked = λ i j hi own. v.marked i j hi (ap (λ a. owns base a j) (sym (same i hi)) ∙ own);
  apart = λ i k j hi hk ne own.
      ap (λ a. owns base a j) (same k hk)
      ∙ v.apart i k j hi hk ne (ap (λ a. owns base a j) (sym (same i hi)) ∙ own);
}

module _ (cells base n : ℕ) (bits bits' : ℕ → ℕ) (f : ℕ → Allocation) (a : Allocation) (start : ℕ)
    (v : Owned cells base n f bits) (at : a.base_address ≡ base + start * cell_size)
    (fits : start + cells_of a ≤ cells) (free : AreFree bits start (cells_of a))
    (sets : (j : ℕ) → test_bit bits' j ≡ (inside start (cells_of a) j || test_bit bits j)) where
  index_lem : index_of base a ≡ start
  index_lem = omega arith

  -- A cell of an older allocation is marked, so it is not in the new block.
  old_outside : (i j : ℕ) → i < n → owns base (f i) j ≡ true → inside start (cells_of a) j ≡ false
  old_outside i j hi own = elim (Bool-cases (inside start (cells_of a) j)) [
    | inl within ↦
        absurd (cc (v.marked i j hi own, free j (ground (arith, within)) (ground (arith, within))))
    | inr beyond ↦ beyond
  ]

  own_start : (j : ℕ) → owns base a j ≡ inside start (cells_of a) j
  own_start j = ap (λ s. inside s (cells_of a) j) index_lem

  at_end : (P : Allocation → Type 0) (i : ℕ) → i < n + 1 → P a → (i < n → P (f i)) → P (put f n a i)
  at_end P i hi new old = elim (ℕ_discrete n i) [
    | yes e ↦ subst (λ k. P (put f n a k)) e (subst P (sym (put_new f n a)) new)
    | no ne ↦
        let before : i < n = ground (arith, ne) in
        subst P (sym (put_old f n i a before)) (old before)
  ]

  new_marked : (j : ℕ) → owns base a j ≡ true → test_bit bits' j ≡ true
  new_marked j own =
      let within : inside start (cells_of a) j ≡ true = sym (own_start j) ∙ own in
      sets j ∙ rw within refl

  old_marked : (i j : ℕ) → i < n → owns base (f i) j ≡ true → test_bit bits' j ≡ true
  old_marked i j hi own = sets j ∙ rw (old_outside i j hi own) (v.marked i j hi own)

  new_apart : (k j : ℕ) → k < n → owns base a j ≡ true → owns base (f k) j ≡ false
  new_apart k j hk own = elim (Bool-cases (owns base (f k) j)) [
    | inl also ↦ cc (old_outside k j hk also, own_start j, own)
    | inr other ↦ other
  ]

  before : (i : ℕ) → i < n + 1 → n ≢ i → i < n
  before i hi ne = ground (arith, ne)

  grown_apart :
      (i k j : ℕ)
      → i < n + 1
      → k < n + 1
      → i ≢ k
      → owns base (put f n a i) j ≡ true
      → owns base (put f n a k) j ≡ false
  grown_apart i k j hi hk ne own = elim (ℕ_discrete n i) [
    | yes e ↦
        let own_a = ap (λ x. owns base x j) (sym (put_at f n i a e)) ∙ own in
        elim (ℕ_discrete n k) [
          | yes e' ↦ absurd (ne (sym e ∙ e'))
          | no nk ↦
              ap (λ x. owns base x j) (put_old f n k a (before k hk nk))
              ∙ new_apart k j (before k hk nk) own_a
        ]
    | no ni ↦
        let old = before i hi ni in
        let own_i = ap (λ x. owns base x j) (sym (put_old f n i a old)) ∙ own in
        elim (ℕ_discrete n k) [
          | yes e' ↦
              ap (λ x. owns base x j) (put_at f n k a e') ∙ own_start j ∙ old_outside i j old own_i
          | no nk ↦
              ap (λ x. owns base x j) (put_old f n k a (before k hk nk))
              ∙ v.apart i k j old (before k hk nk) ne own_i
        ]
  ]

  Owned-grow : Owned cells base (n + 1) (put f n a) bits'
  Owned-grow = record {
    placed = λ i hi.
        at_end (Placed cells base) i hi
          (at ∙ ap (λ s. base + s * cell_size) (sym index_lem), omega (arith, index_lem))
          (v.placed i);
    marked = λ i j hi.
        at_end (λ x. owns base x j ≡ true → test_bit bits' j ≡ true) i hi (new_marked j)
          (λ lo. old_marked i j lo);
    apart = grown_apart;
  }

-- Without a cell to look for there is no block.
find_nothing : (n i : ℕ) (bits : ℕ → ℕ) (run start : ℕ) → find_block n i bits 0 run start ≡ none
unfolding find_block
find_nothing zero i bits run start = refl
find_nothing (suc n) i bits run start = ground (
  arith,
  find_nothing n (i + 1) bits (run + 1) (if run == 0 then i else start),
  find_nothing n (i + 1) bits 0 start,
)

nothing_allocated :
    (cells : ℕ) (m : Memory) (size : ℕ) → cells_for size ≡ 0 → allocate_tissue cells m size ≡ (m, 0)
unfolding allocate_tissue
nothing_allocated cells m size e =
    let none_found : find_block cells 0 m.cell_bitmap (cells_for size) 0 0 ≡ none =
      ap (λ n. find_block cells 0 m.cell_bitmap n 0 0) e ∙ find_nothing cells 0 m.cell_bitmap 0 0 in
    rw (allocate_tissue, none_found) refl

module _ (cells : ℕ) (h : Hedge) (size replicas : ℕ) (v : IsSound cells h) where
  -- What the allocator answers, as far as ownership goes.
  after_tissue :
      (m : Memory) (block : ℕ)
      → InReach cells m
      → m.mem_base ≡ h.memory.mem_base
      → Block cells h.memory.mem_base
          (cells_for (u64 (size * replicas)))
          h.memory.cell_bitmap
          m.cell_bitmap
          block
      → h.allocation_count < max_allocations
      → IsSound cells (enter h size replicas (m, block)).0
  after_tissue m block reach kept (Block.none_free none_given same none_there) room =
      let zero_given : (block == 0) ≡ true = ground (arith, none_given) in
      let owned =
        subst (λ b. Owned cells b h.allocation_count h.allocations m.cell_bitmap) (sym kept)
          (subst (Owned cells h.memory.mem_base h.allocation_count h.allocations) (sym same)
            v.owned) in
      rw zero_given (record { reach = reach; few = v.few; owned = owned })
  after_tissue m block reach kept (Block.given start fits at unused sets) room =
      let some_given : (block == 0) ≡ false = ground (arith, at, v.reach.above) in
      let owned =
        subst
          (λ b.
            Owned cells b (h.allocation_count + 1)
              (put h.allocations h.allocation_count (entry size replicas block)) m.cell_bitmap)
          (sym kept)
          (Owned-grow cells h.memory.mem_base h.allocation_count h.memory.cell_bitmap m.cell_bitmap
            h.allocations (entry size replicas block) start v.owned at fits unused sets) in
      rw some_given (record { reach = reach; few = omega arith; owned = owned })

  answered :
      h.allocation_count < max_allocations
      → IsSound cells
          (enter h size replicas (allocate_tissue cells h.memory (u64 (size * replicas)))).0
  answered room = elim (ℕ_discrete (cells_for (u64 (size * replicas))) 0) [
    | yes e ↦ rw (nothing_allocated cells h.memory (u64 (size * replicas)) e) v
    | no ne ↦
        let (block, reach) =
          allocate_tissue_lem cells h.memory (u64 (size * replicas)) v.reach (ground (arith, ne)) in
        after_tissue (allocate_tissue cells h.memory (u64 (size * replicas))).0
          (allocate_tissue cells h.memory (u64 (size * replicas))).1 reach
          (kept_base cells h.memory (u64 (size * replicas))) block room
  ]

  pub malloc-IsSound : IsSound cells (malloc cells h size replicas).0
  unfolding malloc
  malloc-IsSound = elim (Bool-cases (leb max_allocations h.allocation_count)) [
    | inl no_room ↦ rw (no_room, malloc) v
    | inr room ↦ elim (Bool-cases (replicas == 0 || ltb max_replicas replicas)) [
      | inl bad ↦ rw (room, bad, malloc) v
      | inr good ↦ rw (room, good, malloc) (answered (ground (arith, room)))
    ]
  ]
