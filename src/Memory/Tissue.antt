-- ===== src/Memory/Tissue.antt =====
-- The search for a block of free cells.
use operating_organism.Prelude.{
  leb, ◌==◌, if◌then◌else◌, Bool-cases, ℕ, zero, suc, ◌+◌, ◌-◌, ◌≤◌, ◌<◌, ◌≡◌, refl, sym, ap, ◌∙◌,
  inl, inr, true, false, Option, none, some, arith,
}
use operating_organism.Memory.{test_bit, find_block}

-- Cells from `start` on, `n` of them, are free.
abbrev pub AreFree : (ℕ → ℕ) → ℕ → ℕ → Type 0
AreFree bits start n = (j : ℕ) → start ≤ j → j < start + n → test_bit bits j ≡ false

start_of :
    (run i start : ℕ) → (0 < run → start ≡ i - run) → (if run == 0 then i else start) ≡ i - run
start_of run i start at = ground (arith, at)

module _ (bits : ℕ → ℕ) (i run : ℕ) (r : run ≤ i) where
  free_more :
      AreFree bits (i - run) run → test_bit bits i ≡ false → AreFree bits (i - run) (run + 1)
  free_more free unused j lo hi = elim (Bool-cases (i == j)) [
    | inl same ↦ sym (ap (test_bit bits) (ground (arith, same))) ∙ unused
    | inr other ↦ free j lo (ground (arith, other))
  ]

  -- A free block that begins with the run or after and is longer than it begins after a used cell.
  after_used :
      (needed s : ℕ)
      → run < needed
      → test_bit bits i ≡ true
      → i - run ≤ s
      → AreFree bits s needed
      → i + 1 ≤ s
  after_used needed s h used lo free = elim (Bool-cases (leb s i)) [
    | inl early ↦ absurd (ground (arith, used, free i (ground (arith, early)) (omega arith)))
    | inr late ↦ ground (arith, late)
  ]

-- A search from cell `i` with `run` free cells before it finds a block of free cells, or there is
-- none that begins with the run or after.
pub find_block_lem :
    (cells n i : ℕ) (bits : ℕ → ℕ) (needed run start : ℕ)
    → i + n ≡ cells
    → run < needed
    → run ≤ i
    → (0 < run → start ≡ i - run)
    → AreFree bits (i - run) run
    → (found : Option ℕ) × (find_block n i bits needed run start ≡ found)
      × ((s : ℕ) → found ≡ some s → (s + needed ≤ cells) × AreFree bits s needed)
      × (found ≡ none → (s : ℕ) → i - run ≤ s → s + needed ≤ cells → AreFree bits s needed → ⊥)
unfolding find_block
find_block_lem cells zero i bits needed run start e h r at free =
    (none, refl, λ s eq. absurd (ground (arith, eq)), λ _ s lo hi all. omega arith)
find_block_lem cells (suc n) i bits needed run start e h r at free =
    elim (Bool-cases (test_bit bits i)) [
      | inl used ↦ rw used (
          let (found, same, sound, complete) =
            find_block_lem cells n (i + 1) bits needed 0 start (omega arith) (omega arith)
              (omega arith) (λ z. omega arith) (λ j lo hi. absurd (omega arith)) in
          (
            found,
            same,
            sound,
            λ none_found s lo hi all.
                complete none_found s
                  (let late = after_used bits i run r needed s h used lo all in omega arith) hi all,
          ))
      | inr unused ↦ rw unused (elim (Bool-cases (run + 1 == needed)) [
        | inl last ↦ rw last (
          some (if run == 0 then i else start),
          refl,
          λ s eq.
              let first : s ≡ i - run = ground (arith, eq, start_of run i start at) in
              let more = free_more bits i run r free unused in
              (
                ground (arith, first, last),
                λ j lo hi. more j (omega arith) (ground (arith, first, last)),
              ),
          λ none_found s lo hi all. ground (arith, none_found),
        )
        | inr more ↦ rw more (
            let (found, same, sound, complete) =
              find_block_lem cells n (i + 1) bits needed (run + 1) (if run == 0 then i else start)
                (omega arith) (ground (arith, more)) (omega arith)
                (λ z. start_of run i start at ∙ omega arith)
                (λ j lo hi. free_more bits i run r free unused j (omega arith) (omega arith)) in
            (
              found,
              same,
              sound,
              λ none_found s lo hi all. complete none_found s (omega arith) hi all,
            ))
      ])
    ]
