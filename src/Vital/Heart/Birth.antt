-- ===== src/Vital/Heart/Birth.antt =====
-- The birth of the organism (vital-baremetal/src/life_loop.c) begins a sound life.
use operating_organism.Vital.Metabolism as Metabolism
use operating_organism.Vital.Metabolism.Budget as Budget
use operating_organism.Vital.Synapses as Synapses
use operating_organism.Vital.Synapses.Lives as Lives
use operating_organism.Vital.Epigenetics as Epigenetics
use operating_organism.Vital.Epigenetics.Life as Memory
use operating_organism.Vital.Forth.Layers as Forth
use operating_organism.Vital.Heart.Soundness.{IsSound}
use operating_organism.Vital.Synapses.Activation.{InByte}
use operating_organism.Prelude.{
  ltb, ◌==◌, Bool-cases, length, All, ℕ, ◌≤◌, ◌<◌, ◌≡◌, refl, inl, inr, false, List, [], ◌∷◌, arith,
}
use operating_organism.Prelude.Int.{ℤ}
use operating_organism.Vital.Metabolism.{Metabolism, register_organ}
use operating_organism.Vital.Epigenetics.{Epigenome, checksum_of}
use operating_organism.Vital.Synapses.{Synapses, add_node, connect}
use operating_organism.Vital.Forth.{stack_size, max_words}
use operating_organism.Vital.Heart.{
  Life, register_all, add_all, connect_all, first_organs, first_nodes, first_links, birth,
}

-- The statics before a birth: as zeroed memory has them, or as any sound life leaves them, with an
-- epigenome of no experience.
pub record IsUnborn (l : Life) : Type 0 where
  pub stack : length l.stack ≤ stack_size
  pub network : Lives.IsSound l.synapses
  pub words : Forth.IsLayered l.dictionary
  pub few_words : l.dictionary.word_count ≤ max_words
  pub memory : l.epigenome.total_experiences ≡ 0

add_all-IsSound :
    (s : Synapses) (nodes : List (ℕ × ℕ)) → Lives.IsSound s → Lives.IsSound (add_all s nodes)
add_all-IsSound s [] v = v
add_all-IsSound s ((node, threshold) ∷ rest) v =
    add_all-IsSound (add_node s node threshold).0 rest (Lives.add_node-IsSound s node threshold v)

-- The links with a weight and a plasticity of a byte.
AreBytes : List (ℕ × ℕ × ℤ × ℕ) → Type 0
AreBytes links = All (λ x. InByte x.2 × (x.3 < 256)) links

connect_all-IsSound :
    (s : Synapses) (links : List (ℕ × ℕ × ℤ × ℕ))
    → AreBytes links
    → Lives.IsSound s
    → Lives.IsSound (connect_all s links)
unfolding AreBytes
connect_all-IsSound s [] h v = v
connect_all-IsSound s ((from, to, weight, plasticity) ∷ rest) ((w, p), h) v =
    connect_all-IsSound (connect s from to weight plasticity).0 rest h
      (Lives.connect-IsSound s from to weight plasticity w p v)

first_links-AreBytes : AreBytes first_links
unfolding AreBytes
first_links-AreBytes = ground arith

first_budgets :
    (m : Metabolism) → Budget.IsValid (register_all (Metabolism.init m 1000000) first_organs)
unfolding Metabolism.init register_organ
first_budgets m = record { few = omega arith; budgets = ground arith; pool = omega arith }

first_memory : (e : Epigenome) → e.total_experiences ≡ 0 → Memory.IsSound (Epigenetics.init e)
unfolding Epigenetics.init
first_memory e h = elim (Bool-cases (e.checksum == checksum_of e)) [
  | inl same ↦ rw (Epigenetics.init, same, none_yet) (Memory.blank-IsSound e)
  | inr other ↦ rw (Epigenetics.init, other) (Memory.blank-IsSound e)
]
  where
    none_yet : ltb 0 e.total_experiences ≡ false
    none_yet = ground (arith, h)

-- From statics of no experience a birth makes a sound life: five organs within their budgets, eight
-- nodes and eight links within bounds, a sealed epigenome, a board on its targets.
pub birth-IsSound : (l : Life) → IsUnborn l → IsSound (birth l)
unfolding birth
birth-IsSound l v = record {
  byte = omega arith;
  stack = v.stack;
  budgets = first_budgets _;
  network =
      connect_all-IsSound (add_all (Synapses.init l.synapses) first_nodes) first_links
        first_links-AreBytes
        (add_all-IsSound (Synapses.init l.synapses) first_nodes
          (Lives.init-IsSound l.synapses v.network));
  memory = first_memory l.epigenome v.memory;
  words = v.words;
  few_words = v.few_words;
  board = refl;
}
