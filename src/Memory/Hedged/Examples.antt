-- ===== src/Memory/Hedged/Examples.antt =====
-- Copies and channels at concrete values.
use operating_organism.Prelude.{
  length, u32, u64, ℕ, ◌+◌, ◌*◌, ◌≤◌, ◌<◌, ◌≡◌, refl, true, false, none, some, List, [], ◌∷◌, arith,
}
use operating_organism.Memory.{Memory, mem_init}
use operating_organism.Memory.Hedged.{
  Allocation, Hedge, malloc, find_from, find, read_bytes, replicate_data, read,
}
use operating_organism.Memory.Hedged.Copies.{copies_lem}

abbrev fresh : Memory
fresh = mem_init 0x100000 0x100000

abbrev nothing : Allocation
nothing = record {
  base_address = 0;
  allocation_size = 0;
  replica_count = 0;
  read_latency_total_ns = 0;
  read_count = 0;
}

abbrev empty : Hedge
empty = record { allocations = λ i. nothing; allocation_count = 0; memory = fresh; bytes = λ a. 0 }

abbrev pair : Hedge
pair = record empty {
  allocations =
      λ i. record nothing { base_address = 0x100000; allocation_size = 16; replica_count = 2 };
  allocation_count = 1;
}

abbrev text : List ℕ
text = 4 ∷ 2 ∷ []

found : find pair 0x100000 ≡ some 0
unfolding find_from
found = refl

copies_example :
    let a = pair.allocations 0 in
    let (h', stored) = replicate_data pair 0x100000 text in
    let (h'', out) = read h' 0x100000 (length text) in
    (length text ≤ a.allocation_size
      → (stored ≡ true)
        × ((k : ℕ)
            → k < a.replica_count
            → read_bytes h'.bytes (a.base_address + k * a.allocation_size) (length text) ≡ text)
        × (out ≡ some text)
        × ((h''.allocations 0).read_latency_total_ns ≡ u64 (a.read_latency_total_ns + 80))
        × ((h''.allocations 0).read_count ≡ u32 (a.read_count + 1)))
    × (a.allocation_size < length text
        → (stored ≡ false) × (h' ≡ pair) × (out ≡ none) × (h'' ≡ pair))
copies_example =
    copies_lem pair 0x100000 0 text (omega arith) found
      (record { some_copy = omega arith; below = omega arith })

-- Two allocations, and the first is freed.
abbrev two : Hedge
two = (malloc 64 (malloc 64 empty 5000 2).0 100 4).0
