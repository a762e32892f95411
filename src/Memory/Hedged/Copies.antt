-- ===== src/Memory/Hedged/Copies.antt =====
-- What is written to the copies of an allocation is read back, whichever copy answers.
use mathlib.Core.Path.{subst}
use native.Mathlib.Decide.{ℕ_discrete}
use operating_organism.Prelude.{
  ltb, ◌==◌, if◌then◌else◌, length, u32, u64, ℕ, zero, suc, ◌+◌, ◌*◌, ◌≤◌, ◌<◌, ◌≡◌, refl, sym, ap,
  ◌∙◌, ◌≢◌, ◌⊎◌, inl, true, false, none, some, List, [], ◌∷◌, arith,
}
use operating_organism.Memory.Hedged.{
  Allocation, Hedge, put, find, write_bytes, read_bytes, replica_addr, write_copies, replicate_data,
  latency, fastest, read,
}

write_bytes_outside :
    (mem : ℕ → ℕ) (addr : ℕ) (xs : List ℕ) (a : ℕ)
    → (a < addr) ⊎ (addr + length xs ≤ a)
    → write_bytes mem addr xs a ≡ mem a
unfolding write_bytes
write_bytes_outside mem addr [] a h = refl
write_bytes_outside mem addr (x ∷ xs) a h =
    ground
      (arith, h, write_bytes_outside (λ (b : ℕ). if addr == b then x else mem b) (addr + 1) xs a)

read_bytes_same :
    (mem mem' : ℕ → ℕ) (addr n : ℕ)
    → ((a : ℕ) → addr ≤ a → a < addr + n → mem a ≡ mem' a)
    → read_bytes mem addr n ≡ read_bytes mem' addr n
unfolding read_bytes
read_bytes_same mem mem' addr zero h = refl
read_bytes_same mem mem' addr (suc n) h = rw (h addr (omega arith) (omega arith)) (
    ap (λ t. mem' addr ∷ t)
      (read_bytes_same mem mem' (addr + 1) n (λ a lo hi. h a (omega arith) (omega arith))))

read-write :
    (mem : ℕ → ℕ) (addr : ℕ) (xs : List ℕ)
    → read_bytes (write_bytes mem addr xs) addr (length xs) ≡ xs
unfolding read_bytes write_bytes
read-write mem addr [] = refl
read-write mem addr (x ∷ xs) =
    let mem' : ℕ → ℕ = λ b. if addr == b then x else mem b in
    let first : write_bytes mem' (addr + 1) xs addr ≡ x =
      ground (arith, write_bytes_outside mem' (addr + 1) xs addr) in
    rw first (ap (λ t. x ∷ t) (read-write mem' (addr + 1) xs))

-- Where the copies stand, if the last one ends below 2^64.
pub record Fits (a : Allocation) : Type 0 where
  pub some_copy : 1 ≤ a.replica_count
  pub below : a.base_address + a.replica_count * a.allocation_size < 18446744073709551616

times_mono : (k n size : ℕ) → k < n → k * size + size ≤ n * size
times_mono k n size h = grind arith

place :
    (a : Allocation) (k : ℕ)
    → Fits a
    → k < a.replica_count
    → replica_addr a k ≡ a.base_address + k * a.allocation_size
place a k v h =
    let room = times_mono k a.replica_count a.allocation_size h in omega (arith, room, v.below)

module _ (a : Allocation) (xs : List ℕ) (v : Fits a) (short : length xs ≤ a.allocation_size) where
  write_copies_before :
      (left r : ℕ) (mem : ℕ → ℕ) (b : ℕ)
      → r + left ≤ a.replica_count
      → b < a.base_address + r * a.allocation_size
      → write_copies left r a mem xs b ≡ mem b
  unfolding write_copies
  write_copies_before zero r mem b h lo = refl
  write_copies_before (suc left) r mem b h lo =
      let at = place a r v (omega arith) in
      let next = times_mono r (r + 1) a.allocation_size (omega arith) in
      write_copies_before left (r + 1) (write_bytes mem (replica_addr a r) xs) b (omega arith)
        (omega arith)
      ∙ write_bytes_outside mem (replica_addr a r) xs b (inl (omega (arith, at)))

  own_copy :
      (left r : ℕ) (mem : ℕ → ℕ)
      → r + suc left ≤ a.replica_count
      → read_bytes
          (write_copies left (r + 1) a (write_bytes mem (replica_addr a r) xs) xs)
          (a.base_address + r * a.allocation_size)
          (length xs)
        ≡ xs
  own_copy left r mem h =
      let at = place a r v (omega arith) in
      let next = times_mono r (r + 1) a.allocation_size (omega arith) in
      let mem' = write_bytes mem (replica_addr a r) xs in
      read_bytes_same (write_copies left (r + 1) a mem' xs) mem'
        (a.base_address + r * a.allocation_size) (length xs)
        (λ b lo hi. write_copies_before left (r + 1) mem' b (omega arith) (omega arith))
      ∙ ap (λ t. read_bytes mem' t (length xs)) (sym at)
      ∙ read-write mem (replica_addr a r) xs

  each_copy :
      (left r : ℕ) (mem : ℕ → ℕ) (k : ℕ)
      → r + left ≤ a.replica_count
      → r ≤ k
      → k < r + left
      → read_bytes
          (write_copies left r a mem xs)
          (a.base_address + k * a.allocation_size)
          (length xs)
        ≡ xs
  unfolding write_copies
  each_copy zero r mem k h lo hi = absurd (omega arith)
  each_copy (suc left) r mem k h lo hi = elim (ℕ_discrete r k) [
    | yes e ↦
        subst
          (λ t.
            read_bytes (write_copies left (r + 1) a (write_bytes mem (replica_addr a r) xs) xs)
              (a.base_address + t * a.allocation_size) (length xs)
            ≡ xs)
          e (own_copy left r mem h)
    | no ne ↦
        each_copy left (r + 1) (write_bytes mem (replica_addr a r) xs) k (omega arith) (omega arith)
          (omega arith)
  ]

-- No copy is faster than the first.
first_fastest : (left r : ℕ) → fastest left r 0 80 ≡ (0, 80)
unfolding fastest
first_fastest zero r = refl
first_fastest (suc left) r =
    let slow : ltb (latency r) 80 ≡ false = ground arith in rw slow (first_fastest left (r + 1))

fastest_first : (n : ℕ) → 1 ≤ n → fastest n 0 0 0xffffffff ≡ (0, 80)
unfolding fastest
fastest_first zero h = absurd (omega arith)
fastest_first (suc n) h = first_fastest n 1

module _ (h : Hedge) (ptr i : ℕ) (some_ptr : ptr ≢ 0) (found : find h ptr ≡ some i) where
  replicate_found :
      (xs : List ℕ)
      → length xs ≤ (h.allocations i).allocation_size
      → replicate_data h ptr xs ≡ (
        record h {
          bytes = write_copies (h.allocations i).replica_count 0 (h.allocations i) h.bytes xs;
        },
        true,
      )
  unfolding replicate_data
  replicate_found xs short =
      let given : (ptr == 0) ≡ false = ground (arith, some_ptr) in
      let fits : ltb (h.allocations i).allocation_size (length xs) ≡ false =
        ground (arith, short) in
      rw (given, found, fits, replicate_data) refl

  read_found :
      (size : ℕ)
      → size ≤ (h.allocations i).allocation_size
      → Fits (h.allocations i)
      → let a = h.allocations i in
        read h ptr size ≡ (
          record h {
            allocations = put h.allocations i (record a {
              read_latency_total_ns = u64 (a.read_latency_total_ns + 80);
              read_count = u32 (a.read_count + 1);
            });
          },
          some (read_bytes h.bytes a.base_address size),
        )
  unfolding read
  read_found size short v =
      let a = h.allocations i in
      let given : (ptr == 0) ≡ false = ground (arith, some_ptr) in
      let fits : ltb a.allocation_size size ≡ false = ground (arith, short) in
      let first : replica_addr a 0 ≡ a.base_address = omega (arith, v.below) in
      rw (given, found, fits, fastest_first a.replica_count v.some_copy, first, read) refl

  replicate_long :
      (xs : List ℕ)
      → (h.allocations i).allocation_size < length xs
      → replicate_data h ptr xs ≡ (h, false)
  unfolding replicate_data
  replicate_long xs long =
      let given : (ptr == 0) ≡ false = ground (arith, some_ptr) in
      let over : ltb (h.allocations i).allocation_size (length xs) ≡ true = ground (arith, long) in
      rw (given, found, over, replicate_data) refl

  read_long : (size : ℕ) → (h.allocations i).allocation_size < size → read h ptr size ≡ (h, none)
  unfolding read
  read_long size long =
      let given : (ptr == 0) ≡ false = ground (arith, some_ptr) in
      let over : ltb (h.allocations i).allocation_size size ≡ true = ground (arith, long) in
      rw (given, found, over, read) refl

put_self : (f : ℕ → Allocation) (i : ℕ) (a : Allocation) → put f i a i ≡ a
put_self f i a = let here : (i == i) ≡ true = ground arith in rw here refl

-- Data that fits an allocation, whose copies end below 2^64, is taken; then every copy holds it, and a
-- read of its length gives it back, by the first copy at its 80 ns, with the read counted. Data that
-- is longer is refused, and so is a longer read, and nothing changes.
pub copies_lem :
    (h : Hedge) (ptr i : ℕ) (xs : List ℕ)
    → ptr ≢ 0
    → find h ptr ≡ some i
    → Fits (h.allocations i)
    → let a = h.allocations i in
      let (h', taken) = replicate_data h ptr xs in
      let (h'', out) = read h' ptr (length xs) in
      (length xs ≤ a.allocation_size
        → (taken ≡ true)
          × ((k : ℕ)
              → k < a.replica_count
              → read_bytes h'.bytes (a.base_address + k * a.allocation_size) (length xs) ≡ xs)
          × (out ≡ some xs)
          × ((h''.allocations i).read_latency_total_ns ≡ u64 (a.read_latency_total_ns + 80))
          × ((h''.allocations i).read_count ≡ u32 (a.read_count + 1)))
      × (a.allocation_size < length xs → (taken ≡ false) × (h' ≡ h) × (out ≡ none) × (h'' ≡ h))
copies_lem h ptr i xs some_ptr found v =
    let a = h.allocations i in
    let h' = record h { bytes = write_copies a.replica_count 0 a h.bytes xs } in
    let counted = record a {
      read_latency_total_ns = u64 (a.read_latency_total_ns + 80);
      read_count = u32 (a.read_count + 1);
    } in
    let own = put_self h.allocations i counted in
    (
      λ short.
          let copy = λ (k : ℕ) (hi : k < a.replica_count).
            each_copy a xs v short a.replica_count 0 h.bytes k (omega arith) (omega arith)
              (omega arith) in
          let first : a.base_address ≡ a.base_address + 0 * a.allocation_size = omega arith in
          let back : read_bytes h'.bytes a.base_address (length xs) ≡ xs =
            ap (λ t. read_bytes h'.bytes t (length xs)) first ∙ copy 0 v.some_copy in
          rw (replicate_found h ptr i some_ptr found xs short) (
            rw (read_found h' ptr i some_ptr found (length xs) short v) (
              refl,
              copy,
              ap some back,
              ap (λ t. t.read_latency_total_ns) own,
              ap (λ t. t.read_count) own,
            )),
      λ long.
          let unread = read_long h ptr i some_ptr found (length xs) long in
          rw (replicate_long h ptr i some_ptr found xs long)
            (refl, refl, ap (λ t. t.1) unread, ap (λ t. t.0) unread),
    )
