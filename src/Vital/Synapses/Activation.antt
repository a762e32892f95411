-- ===== src/Vital/Synapses/Activation.antt =====
-- The activations and the refractory periods keep their ranges.
use operating_organism.Prelude.{
  ltb, ◌==◌, Bool-cases, Option-cases, ℕ, zero, suc, ◌+◌, ◌≤◌, inl, inr, arith,
}
use operating_organism.Prelude.Int.{ℤ, pos, negsuc, pos_part, neg_part, ◌+ℤ◌, leb_ℤ}
use operating_organism.Vital.Synapses.{
  Node, Link, Synapses, at_index, find_from, clamp, stimulate, carry, transmit, leak, spark,
  leak_at, visit, visit_all,
}

-- The range of `int8_t`, to which the code cuts an `int16_t`.
abbrev pub InByte : ℤ → Type 0
InByte a = (pos_part a ≤ 127) × (neg_part a ≤ 128)

pub record IsCalm (n : Node) : Type 0 where
  pub activation : InByte n.activation
  pub refractory : n.refractory ≤ 3

abbrev pub AreCalm : (ℕ → Node) → Type 0
AreCalm nodes = (i : ℕ) → IsCalm (nodes i)

clamp-InByte : (a : ℤ) → InByte (clamp a)
clamp-InByte (pos n) = ground arith
clamp-InByte (negsuc n) = ground arith

leak-InByte : (a : ℤ) → InByte a → InByte (leak a)
unfolding ◌+ℤ◌
leak-InByte (pos n) h = ground (arith, h)
leak-InByte (negsuc n) h = ground (arith, h)

pub at_index-AreCalm :
    (nodes : ℕ → Node) (i : ℕ) (n : Node) → AreCalm nodes → IsCalm n → AreCalm (at_index nodes i n)
at_index-AreCalm nodes i n v h j = elim (Bool-cases (i == j)) [
  | inl here ↦ rw here h
  | inr other ↦ rw other (v j)
]

module _ (s : Synapses) (v : AreCalm s.nodes) where
  pub stimulate-AreCalm : (node_id : ℕ) (signal : ℤ) → AreCalm (stimulate s node_id signal).nodes
  unfolding stimulate
  stimulate-AreCalm node_id signal =
      elim (Option-cases (find_from s.node_count 0 s.nodes node_id)) [
        | inl missing ↦ rw (missing, stimulate) v
        | inr (i, found) ↦
            rw (found, stimulate)
              (at_index-AreCalm s.nodes i _ v (record {
                activation = clamp-InByte ((s.nodes i).activation +ℤ signal);
                refractory = (v i).refractory;
              }))
      ]

  spark-AreCalm : (i : ℕ) → AreCalm (spark s i).nodes
  spark-AreCalm i =
      at_index-AreCalm s.nodes i _ v
        (record { activation = (v i).activation; refractory = omega arith })

  leak_at-AreCalm : (i : ℕ) → AreCalm (leak_at s i).nodes
  leak_at-AreCalm i = at_index-AreCalm s.nodes i _ v (record {
    activation = leak-InByte (s.nodes i).activation (v i).activation;
    refractory = (v i).refractory;
  })

  carry-AreCalm : (i : ℕ) (link : Link) → AreCalm (carry s i link).nodes
  unfolding carry
  carry-AreCalm i link = elim (Bool-cases (link.from_node == (s.nodes i).node_id)) [
    | inl mine ↦ elim (Option-cases (find_from s.node_count 0 s.nodes link.to_node)) [
      | inl missing ↦ rw (mine, missing, carry) v
      | inr (t, found) ↦ rw (mine, found, carry) (stimulate-AreCalm (s.nodes t).node_id link.weight)
    ]
    | inr other ↦ rw (other, carry) v
  ]

transmit-AreCalm :
    (left j : ℕ) (s : Synapses) (i : ℕ) → AreCalm s.nodes → AreCalm (transmit left j s i).nodes
unfolding transmit
transmit-AreCalm zero j s i v = v
transmit-AreCalm (suc left) j s i v =
    transmit-AreCalm left (j + 1) (carry s i (s.links j)) i (carry-AreCalm s v i (s.links j))

visit-AreCalm : (s : Synapses) (i : ℕ) → AreCalm s.nodes → AreCalm (visit s i).nodes
unfolding visit
visit-AreCalm s i v = elim (Bool-cases (ltb 0 (s.nodes i).refractory)) [
  | inl resting ↦
      rw (resting, visit)
        (at_index-AreCalm s.nodes i _ v
          (record { activation = (v i).activation; refractory = omega (arith, (v i).refractory) }))
  | inr awake ↦ elim (Bool-cases (leb_ℤ (pos (s.nodes i).threshold) (s.nodes i).activation)) [
    | inl fires ↦
        rw (awake, fires, visit)
          (leak_at-AreCalm (transmit s.link_count 0 (spark s i) i)
            (transmit-AreCalm s.link_count 0 (spark s i) i (spark-AreCalm s v i)) i)
    | inr silent ↦ rw (awake, silent, visit) (leak_at-AreCalm s v i)
  ]
]

pub visit_all-AreCalm :
    (left i : ℕ) (s : Synapses) → AreCalm s.nodes → AreCalm (visit_all left i s).nodes
unfolding visit_all
visit_all-AreCalm zero i s v = v
visit_all-AreCalm (suc left) i s v =
    visit_all-AreCalm left (i + 1) (visit s i) (visit-AreCalm s i v)
