-- ===== src/Memory/Channels/Winner.antt =====
-- The channel that wins, and what it holds.
use mathlib.Core.Path.{subst}
use native.Mathlib.Nat.{le_refl}
use operating_organism.Prelude.{
  ltb, leb, ◌==◌, if◌then◌else◌, ltb→lt, Bool-cases, ℕ, zero, suc, ◌+◌, ◌-◌, ◌≤◌, ◌<◌, ◌≡◌, refl,
  ap, ◌∙◌, ◌≢◌, ◌⊎◌, inl, inr, true, false, ◌&&◌, ◌||◌, none, some, arith,
}
use operating_organism.Memory.Channels.{
  max_words, Channels, pseudo_latency, store_from, replicate_word, best_from, read_word, read_value,
}

latency_small : (index r : ℕ) → pseudo_latency index r < 300
unfolding pseudo_latency
latency_small index r = omega arith

-- The loop gives a channel of least latency, the first of them.
best_from_lem :
    (left i index best latency : ℕ)
    → best < i
    → latency ≡ pseudo_latency index best
    → ((r : ℕ) → r < i → latency ≤ pseudo_latency index r)
    → ((r : ℕ) → r < best → latency < pseudo_latency index r)
    → let (best', latency') = best_from left i index best latency in
      (best' < i + left)
      × (latency' ≡ pseudo_latency index best')
      × ((r : ℕ) → r < i + left → latency' ≤ pseudo_latency index r)
      × ((r : ℕ) → r < best' → latency' < pseudo_latency index r)
unfolding best_from
best_from_lem zero i index best latency inside at least first =
    (omega arith, at, λ r hr. least r (omega arith), first)
best_from_lem (suc left) i index best latency inside at least first =
    elim (Bool-cases (ltb (pseudo_latency index i) latency)) [
      | inl better ↦
          let faster = ltb→lt (pseudo_latency index i) latency better in
          let ih =
            best_from_lem left (i + 1) index i (pseudo_latency index i) (omega arith) refl
              (λ r hr. ground (arith, least r, faster))
              (λ r hr. omega (arith, least r hr, faster)) in
          rw (better, best_from) (omega (arith, ih.0), ih.1, λ r hr. ih.2 r (omega arith), ih.3)
      | inr worse ↦
          let slower : latency ≤ pseudo_latency index i = ground (arith, worse) in
          let ih =
            best_from_lem left (i + 1) index best latency (omega arith) at
              (λ r hr. ground (arith, least r, slower)) first in
          rw (worse, best_from) (omega (arith, ih.0), ih.1, λ r hr. ih.2 r (omega arith), ih.3)
    ]

-- After a word is stored every channel in use holds it, and no other word has changed.
store_from_lem :
    (left i : ℕ) (store : ℕ → ℕ → ℕ) (index value r w : ℕ)
    → store_from left i store index value r w
      ≡ (if leb i r && ltb r (i + left) && w == index then value else store r w)
unfolding store_from
store_from_lem zero i store index value r w = ground arith
store_from_lem (suc left) i store index value r w = ground (
  arith,
  store_from_lem left (i + 1) (λ (a b : ℕ). if a == i && b == index then value else store a b) index
      value r w,
)

-- The winner among `count` channels.
module _ (count index : ℕ) (some_channel : 1 ≤ count) where
  first_round :
      best_from count 0 index 0 0xffffffff
      ≡ best_from (count - 1) 1 index 0 (pseudo_latency index 0)
  unfolding best_from
  first_round =
      let e : count ≡ suc (count - 1) = omega arith in
      let better : ltb (pseudo_latency index 0) 0xffffffff ≡ true =
        ground (arith, latency_small index 0) in
      ap (λ n. best_from n 0 index 0 0xffffffff) e ∙ rw (better, best_from) refl

  winner_lem :
      let (best, latency) = best_from count 0 index 0 0xffffffff in
      (best < count)
      × (latency ≡ pseudo_latency index best)
      × ((r : ℕ) → r < count → latency ≤ pseudo_latency index r)
      × ((r : ℕ) → r < best → latency < pseudo_latency index r)
  winner_lem =
      let w =
        best_from_lem (count - 1) 1 index 0 (pseudo_latency index 0) (omega arith) refl
          (λ r hr.
            let e : 0 ≡ r = omega arith in
            subst (λ t. pseudo_latency index 0 ≤ pseudo_latency index t) e (le_refl _))
          (λ r hr. absurd (omega arith)) in
      rw first_round (omega (arith, w.0), w.1, λ r hr. w.2 r (omega arith), w.3)

module _ (c : Channels) (index value : ℕ) where
  replicate_taken :
      1 ≤ c.replica_count
      → index < max_words
      → replicate_word c index value ≡ (
        record c { replica_store = store_from c.replica_count 0 c.replica_store index value },
        true,
      )
  unfolding replicate_word
  replicate_taken some_channel below =
      let ready : (c.replica_count == 0 || leb max_words index) ≡ false = ground arith in
      rw (ready, replicate_word) refl

  read_taken :
      (store_addr : ℕ)
      → 1 ≤ c.replica_count
      → index < max_words
      → read_value store_addr c index
        ≡ some (c.replica_store (best_from c.replica_count 0 index 0 0xffffffff).0 index)
  unfolding read_value read_word
  read_taken store_addr some_channel below =
      let ready : (c.replica_count == 0 || leb max_words index) ≡ false = ground arith in
      rw (ready, read_value) refl

  refused :
      (store_addr : ℕ)
      → (c.replica_count ≡ 0) ⊎ (max_words ≤ index)
      → (replicate_word c index value ≡ (c, false)) × (read_value store_addr c index ≡ none)
  unfolding replicate_word read_value read_word
  refused store_addr h =
      let barred : (c.replica_count == 0 || leb max_words index) ≡ true = ground (arith, h) in
      (rw (barred, replicate_word) refl, rw (barred, read_value) refl)

-- A word is stored in every channel and read back, once one to eight channels are configured: the
-- read gives the value, from the channel of least latency, the first of those. Words at any other
-- index stay as they were in every channel, and an index of 4096 or more is refused by both, as both
-- are before any channel is configured.
word_lem :
    (store_addr : ℕ) (c : Channels) (index value : ℕ)
    → let (c', taken) = replicate_word c index value in
      (1 ≤ c.replica_count
        → index < max_words
        → (taken ≡ true)
          × (read_value store_addr c' index ≡ some value)
          × ((w r : ℕ) → w ≢ index → c'.replica_store r w ≡ c.replica_store r w)
          × (let (best, latency) = best_from c'.replica_count 0 index 0 0xffffffff in
              (best < c.replica_count)
              × ((r : ℕ) → r < c.replica_count → latency ≤ pseudo_latency index r)
              × ((r : ℕ) → r < best → latency < pseudo_latency index r)))
      × ((c.replica_count ≡ 0) ⊎ (max_words ≤ index)
          → (taken ≡ false) × (c' ≡ c) × (read_value store_addr c index ≡ none))
word_lem store_addr c index value =
    let store = store_from c.replica_count 0 c.replica_store index value in
    let c' = record c { replica_store = store } in
    (
      λ some_channel below.
          let w = winner_lem c.replica_count index some_channel in
          let best = (best_from c.replica_count 0 index 0 0xffffffff).0 in
          let held : store best index ≡ value =
            store_from_lem c.replica_count 0 c.replica_store index value best index
            ∙ ground (arith, w.0) in
          rw (replicate_taken c index value some_channel below) (
            refl,
            read_taken c' index value store_addr some_channel below ∙ ap some held,
            λ v r ne.
                store_from_lem c.replica_count 0 c.replica_store index value r v
                ∙ ground (arith, ne),
            (w.0, w.2, w.3),
          ),
      λ h. let no = refused c index value store_addr h in rw no.0 (refl, refl, no.1),
    )
