-- ===== src/Memory/Channels.antt =====
-- memory-baremetal/src/hedged_read.c: words that are kept in a copy per channel, and read from the
-- channel whose simulated latency is least.
pub mod Winner
use operating_organism.Prelude.{
  ltb, leb, ◌==◌, if◌then◌else◌, u32, u64, ℕ, zero, suc, ◌+◌, ◌*◌, ◌/◌, ◌%◌, ◌^◌, bit_xor, Bool,
  true, false, ◌&&◌, ◌||◌, Option, none, some,
}

abbrev pub max_replicas : ℕ
max_replicas = 8

abbrev pub max_words : ℕ
max_words = 4096

-- The statics.
pub record Channels : Type 0 where
  pub replica_count : ℕ
  pub channel_stride : ℕ
  pub replica_store : ℕ → ℕ → ℕ

-- `bio_hedged_result_t`
pub record HedgedResult : Type 0 where
  pub logical_index : ℕ
  pub replica_index : ℕ
  pub replica_addr : ℕ
  pub simulated_latency_ns : ℕ

-- `pseudo_latency_ns`
unfoldable pub pseudo_latency : ℕ → ℕ → ℕ
pseudo_latency logical_index replica_index =
    let seed = bit_xor (u32 (logical_index * 1103515245)) (u32 (replica_index * 2654435761)) in
    let mixed = bit_xor seed (seed / 2 ^ 16) in u32 (80 + mixed % 220)

-- `bio_hedged_configure`; true for its 0, false for its -1.
unfoldable configure : Channels → ℕ → ℕ → Channels × Bool
configure c replica_count stride =
    if replica_count == 0 || ltb max_replicas replica_count
    then (c, false)
    else if stride == 0
    then (c, false)
    else (record c { replica_count = replica_count; channel_stride = stride }, true)

-- The loop of `bio_hedged_replicate_word`, on the channels left from `i` on.
unfoldable pub store_from : ℕ → ℕ → (ℕ → ℕ → ℕ) → ℕ → ℕ → ℕ → ℕ → ℕ
store_from zero i store index value = store
store_from (suc left) i store index value =
    store_from left (i + 1) (λ r w. if r == i && w == index then value else store r w) index value

-- `bio_hedged_replicate_word`
unfoldable pub replicate_word : Channels → ℕ → ℕ → Channels × Bool
replicate_word c index value = if c.replica_count == 0 || leb max_words index then (c, false) else (
  record c { replica_store = store_from c.replica_count 0 c.replica_store index value },
  true,
)

-- The loop of `bio_hedged_read_word`: the best channel so far and its latency.
unfoldable pub best_from : ℕ → ℕ → ℕ → ℕ → ℕ → ℕ × ℕ
best_from zero i index best latency = (best, latency)
best_from (suc left) i index best latency =
    let mine = pseudo_latency index i in
    let better = ltb mine latency in
    best_from left (i + 1) index (if better then i else best) (if better then mine else latency)

-- `bio_hedged_read_word`, with the address of `g_replica_store`.
unfoldable pub read_word : ℕ → Channels → ℕ → Option HedgedResult
read_word store_addr c index =
    if c.replica_count == 0 || leb max_words index
    then none
    else let (best, latency) = best_from c.replica_count 0 index 0 0xffffffff in
      some (record {
        logical_index = index;
        replica_index = best;
        replica_addr =
            u64 (store_addr + (best * max_words + index) * 8 + u64 (best * c.channel_stride));
        simulated_latency_ns = latency;
      })

-- `bio_hedged_read_value`
unfoldable pub read_value : ℕ → Channels → ℕ → Option ℕ
read_value store_addr c index = elim (read_word store_addr c index) [
  | none ↦ none
  | some winner ↦ some (c.replica_store winner.replica_index index)
]
