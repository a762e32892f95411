-- ===== src/Memory/Hedged.antt =====
-- memory-baremetal/src/hedged_malloc.c: tissue that is allocated with copies of the same data, and
-- read from the copy that answers first.
pub mod Copies
pub mod Ownership
mod Examples
use operating_organism.Prelude.{
  ltb, leb, ◌==◌, if◌then◌else◌, length, u32, u64, ℕ, zero, suc, ◌+◌, ◌-◌, ◌*◌, ◌/◌, ◌%◌, Bool,
  true, false, ◌&&◌, ◌||◌, Option, none, some, List, [], ◌∷◌,
}
use operating_organism.Memory.{cell_size, Memory, cells_for, allocate_tissue, purge_tissue}

abbrev pub max_allocations : ℕ
max_allocations = 256

abbrev pub max_replicas : ℕ
max_replicas = 4

-- `hedged_allocation_t`
pub record Allocation : Type 0 where
  pub base_address : ℕ
  pub allocation_size : ℕ
  pub replica_count : ℕ
  pub read_latency_total_ns : ℕ
  pub read_count : ℕ

-- The statics, with the allocator below them and the bytes of the memory by their addresses.
pub record Hedge : Type 0 where
  pub allocations : ℕ → Allocation
  pub allocation_count : ℕ
  pub memory : Memory
  pub bytes : ℕ → ℕ

abbrev pub put : (ℕ → Allocation) → ℕ → Allocation → ℕ → Allocation
put f i a j = if i == j then a else f j

abbrev pub total_size : Allocation → ℕ
total_size a = u64 (a.allocation_size * a.replica_count)

-- The new allocation, and what `hedged_malloc` does with the allocator's answer.
abbrev pub entry : ℕ → ℕ → ℕ → Allocation
entry size replicas block = record {
  base_address = block;
  allocation_size = size;
  replica_count = replicas;
  read_latency_total_ns = 0;
  read_count = 0;
}

abbrev pub enter : Hedge → ℕ → ℕ → Memory × ℕ → Hedge × ℕ
enter h size replicas (m, block) = if block == 0 then (record h { memory = m }, 0) else (
  record h {
    allocations = put h.allocations h.allocation_count (entry size replicas block);
    allocation_count = h.allocation_count + 1;
    memory = m;
  },
  block,
)

-- `hedged_malloc` on `cells` cells: the new state, and the address, or 0.
unfoldable pub malloc : ℕ → Hedge → ℕ → ℕ → Hedge × ℕ
malloc cells h size replicas =
    if leb max_allocations h.allocation_count
    then (h, 0)
    else if replicas == 0 || ltb max_replicas replicas
    then (h, 0)
    else enter h size replicas (allocate_tissue cells h.memory (u64 (size * replicas)))

-- The search for an allocation by its address, on the entries left from `i` on.
pub find_from : ℕ → ℕ → (ℕ → Allocation) → ℕ → Option ℕ
find_from zero i f ptr = none
find_from (suc left) i f ptr =
    let rest = find_from left (i + 1) f ptr in if (f i).base_address == ptr then some i else rest

abbrev pub find : Hedge → ℕ → Option ℕ
find h ptr = find_from h.allocation_count 0 h.allocations ptr

-- `memcpy` to and from an address.
pub write_bytes : (ℕ → ℕ) → ℕ → List ℕ → ℕ → ℕ
write_bytes mem addr [] = mem
write_bytes mem addr (x ∷ xs) = write_bytes (λ a. if addr == a then x else mem a) (addr + 1) xs

pub read_bytes : (ℕ → ℕ) → ℕ → ℕ → List ℕ
read_bytes mem addr zero = []
read_bytes mem addr (suc n) = mem addr ∷ read_bytes mem (addr + 1) n

abbrev pub replica_addr : Allocation → ℕ → ℕ
replica_addr a r = u64 (a.base_address + u64 (r * a.allocation_size))

-- The loop that writes the copies, on the copies left from `r` on.
pub write_copies : ℕ → ℕ → Allocation → (ℕ → ℕ) → List ℕ → ℕ → ℕ
write_copies zero r a mem xs = mem
write_copies (suc left) r a mem xs =
    write_copies left (r + 1) a (write_bytes mem (replica_addr a r) xs) xs

-- `hedged_replicate_data` of as many bytes as the list has; true for its 0, false for its -1.
unfoldable pub replicate_data : Hedge → ℕ → List ℕ → Hedge × Bool
unfolding find_from write_copies write_bytes
replicate_data h ptr xs = if ptr == 0 then (h, false) else elim (find h ptr) [
  | none ↦ (h, false)
  | some i ↦
      let a = h.allocations i in
      if ltb a.allocation_size (length xs)
      then (h, false)
      else (record h { bytes = write_copies a.replica_count 0 a h.bytes xs }, true)
]

-- `simulate_replica_latency`
abbrev pub latency : ℕ → ℕ
latency r = u32 (80 + u32 (r * 13579) % 120)

-- The loop that looks for the fastest copy: the copy and its latency.
pub fastest : ℕ → ℕ → ℕ → ℕ → ℕ × ℕ
fastest zero r best best_latency = (best, best_latency)
fastest (suc left) r best best_latency =
    let better = ltb (latency r) best_latency in
    fastest left (r + 1) (if better then r else best) (if better then latency r else best_latency)

-- `hedged_read` of `size` bytes: the new state, and the bytes if its result is 0.
unfoldable pub read : Hedge → ℕ → ℕ → Hedge × Option (List ℕ)
unfolding find_from fastest read_bytes
read h ptr size = if ptr == 0 then (h, none) else elim (find h ptr) [
  | none ↦ (h, none)
  | some i ↦
      let a = h.allocations i in
      if ltb a.allocation_size size
      then (h, none)
      else let (best, best_latency) = fastest a.replica_count 0 0 0xffffffff in
        (
          record h {
            allocations = put h.allocations i (record a {
              read_latency_total_ns = u64 (a.read_latency_total_ns + best_latency);
              read_count = u32 (a.read_count + 1);
            });
          },
          some (read_bytes h.bytes (replica_addr a best) size),
        )
]

-- `hedged_get_stats`: the average latency and the count of reads.
unfoldable get_stats : Hedge → ℕ → Option (ℕ × ℕ)
unfolding find_from
get_stats h ptr = if ptr == 0 then none else elim (find h ptr) [
  | none ↦ none
  | some i ↦
      let a = h.allocations i in
      some (if ltb 0 a.read_count then a.read_latency_total_ns / a.read_count else 0, a.read_count)
]

-- The bytes that `bio_purge_infected_tissue` clears: those of the cells of the block.
abbrev purge_bytes : ℕ → Memory → ℕ → ℕ → (ℕ → ℕ) → ℕ → ℕ
purge_bytes cells m addr size mem a =
    let start = u32 ((addr - m.mem_base) / cell_size) in
    let cell = (a - m.mem_base) / cell_size in
    if leb m.mem_base addr
      && leb m.mem_base a
      && leb start cell
      && ltb cell (u32 (start + cells_for size))
      && ltb cell cells
    then 0
    else mem a

-- `hedged_free`
unfoldable pub free : ℕ → Hedge → ℕ → Hedge
unfolding find_from
free cells h ptr = if ptr == 0 then h else elim (find h ptr) [
  | none ↦ h
  | some i ↦
      let a = h.allocations i in
      let last = h.allocation_count - 1 in
      record h {
        memory = purge_tissue cells h.memory ptr (total_size a);
        bytes = purge_bytes cells h.memory ptr (total_size a) h.bytes;
        allocations =
            if ltb i last then put h.allocations i (h.allocations last) else h.allocations;
        allocation_count = last;
      }
]
