-- ===== src/Vital/Synapses/Lives.antt =====
-- The network through any sequence of calls.
use mathlib.Core.Path.{subst}
use operating_organism.Prelude.{
  ltb, leb, ◌==◌, if◌then◌else◌, Bool-cases, Option-cases, ℕ, zero, suc, ◌+◌, ◌≤◌, ◌<◌, ◌≡◌, refl,
  sym, ap, ◌∙◌, inl, inr, false, List, [], ◌∷◌, arith,
}
use operating_organism.Prelude.Int.{ℤ, pos, leb_ℤ}
use operating_organism.Vital.Synapses.{
  max_nodes, max_links, Node, Link, Synapses, init, add_node, connect, find_from, stimulate, carry,
  transmit, spark, leak_at, visit, visit_all, propagate, hebbian_learning,
}
use operating_organism.Vital.Synapses.Activation.{
  InByte, IsCalm, AreCalm, at_index-AreCalm, stimulate-AreCalm, visit_all-AreCalm,
}
use operating_organism.Vital.Synapses.Weights.{IsLink}
use operating_organism.Vital.Synapses.Weights.Scaling.{learning_lem}
use operating_organism.Vital.Synapses.Refractory.Beats.{stimulate_all, beat, learning-Rests}

pub record IsSound (s : Synapses) : Type 0 where
  pub calm : AreCalm s.nodes
  pub links : (k : ℕ) → IsLink (s.links k)
  pub few_nodes : s.node_count ≤ max_nodes
  pub few_links : s.link_count ≤ max_links

-- The calls: the birth, the building of the network, and the beats.
pub data Step : Synapses → Synapses → Type 0 where
  starts : (s : Synapses) → Step s (init s)
  grows : (s : Synapses) (node_id threshold : ℕ) → Step s (add_node s node_id threshold).0
  connects :
      (s : Synapses) (from to : ℕ) (weight : ℤ) (plasticity : ℕ)
      → InByte weight
      → plasticity < 256
      → Step s (connect s from to weight plasticity).0
  beats : (s : Synapses) (signals : List (ℕ × ℤ)) → Step s (beat s signals)

pub data Reach (s : Synapses) : Synapses → Type 0 where
  here : Reach s s
  next : {t u : Synapses} → Reach s t → Step t u → Reach s u

pub init-IsSound : (s : Synapses) → IsSound s → IsSound (init s)
unfolding init
init-IsSound s v = record {
  calm = λ i. elim (Bool-cases (ltb i max_nodes)) [
    | inl used ↦
        rw used (record { activation = (omega arith, omega arith); refractory = omega arith })
    | inr unused ↦ rw unused (v.calm i)
  ];
  links = v.links;
  few_nodes = omega arith;
  few_links = omega arith;
}

pub add_node-IsSound :
    (s : Synapses) (node_id threshold : ℕ) → IsSound s → IsSound (add_node s node_id threshold).0
unfolding add_node
add_node-IsSound s node_id threshold v = elim (Bool-cases (leb max_nodes s.node_count)) [
  | inl no_room ↦ rw (no_room, add_node) v
  | inr room ↦
      rw (room, add_node)
        (record {
          calm =
              at_index-AreCalm s.nodes s.node_count _ v.calm
                (record { activation = (omega arith, omega arith); refractory = omega arith });
          links = v.links;
          few_nodes = ground (arith, room);
          few_links = v.few_links;
        })
]

pub connect-IsSound :
    (s : Synapses) (from to : ℕ) (weight : ℤ) (plasticity : ℕ)
    → InByte weight
    → plasticity < 256
    → IsSound s
    → IsSound (connect s from to weight plasticity).0
unfolding connect
connect-IsSound s from to weight plasticity w p v = elim (Bool-cases (leb max_links s.link_count)) [
  | inl no_room ↦ rw (no_room, connect) v
  | inr room ↦
      rw (room, connect)
        (record {
          calm = v.calm;
          links = λ k. elim (Bool-cases (s.link_count == k)) [
            | inl new ↦ rw new (record { weight = w; plasticity = p })
            | inr old ↦ rw old (v.links k)
          ];
          few_nodes = v.few_nodes;
          few_links = ground (arith, room);
        })
]

-- What the parts of a propagation leave alone: all but the nodes and the marks of firing.
record OnlyNodes (s s' : Synapses) : Type 0 where
  same : s' ≡ record s { nodes = s'.nodes; recently_fired = s'.recently_fired }

only_trans : {s t u : Synapses} → OnlyNodes s t → OnlyNodes t u → OnlyNodes s u
only_trans {u = u} a b = record {
  same =
      b.same
      ∙ ap {B = Synapses}
          (λ (x : Synapses). record x { nodes = u.nodes; recently_fired = u.recently_fired })
          a.same;
}

stimulate_only :
    (s : Synapses) (node_id : ℕ) (signal : ℤ) → OnlyNodes s (stimulate s node_id signal)
unfolding stimulate
stimulate_only s node_id signal = elim (Option-cases (find_from s.node_count 0 s.nodes node_id)) [
  | inl missing ↦ rw (missing, stimulate) (record { same = refl })
  | inr (i, found) ↦ rw (found, stimulate) (record { same = refl })
]

stimuli_only : (s : Synapses) (signals : List (ℕ × ℤ)) → OnlyNodes s (stimulate_all s signals)
unfolding stimulate_all
stimuli_only s [] = record { same = refl }
stimuli_only s ((node_id, signal) ∷ rest) =
    only_trans (stimulate_only s node_id signal) (stimuli_only (stimulate s node_id signal) rest)

carry_only : (s : Synapses) (i : ℕ) (link : Link) → OnlyNodes s (carry s i link)
unfolding carry
carry_only s i link = elim (Bool-cases (link.from_node == (s.nodes i).node_id)) [
  | inl mine ↦ elim (Option-cases (find_from s.node_count 0 s.nodes link.to_node)) [
    | inl missing ↦ rw (mine, missing, carry) (record { same = refl })
    | inr (t, found) ↦ rw (mine, found, carry) (stimulate_only s (s.nodes t).node_id link.weight)
  ]
  | inr other ↦ rw (other, carry) (record { same = refl })
]

transmit_only : (left j : ℕ) (s : Synapses) (i : ℕ) → OnlyNodes s (transmit left j s i)
unfolding transmit
transmit_only zero j s i = record { same = refl }
transmit_only (suc left) j s i =
    only_trans (carry_only s i (s.links j)) (transmit_only left (j + 1) (carry s i (s.links j)) i)

visit_only : (s : Synapses) (i : ℕ) → OnlyNodes s (visit s i)
unfolding visit
visit_only s i = elim (Bool-cases (ltb 0 (s.nodes i).refractory)) [
  | inl resting ↦ rw (resting, visit) (record { same = refl })
  | inr awake ↦ elim (Bool-cases (leb_ℤ (pos (s.nodes i).threshold) (s.nodes i).activation)) [
    | inl fires ↦
        let after = transmit s.link_count 0 (spark s i) i in
        let lit : OnlyNodes s (spark s i) = record { same = refl } in
        let faded : OnlyNodes after (leak_at after i) = record { same = refl } in
        rw (awake, fires, visit)
          (only_trans lit (only_trans (transmit_only s.link_count 0 (spark s i) i) faded))
    | inr quiet ↦ rw (awake, quiet, visit) (record { same = refl })
  ]
]

visits_only : (left i : ℕ) (s : Synapses) → OnlyNodes s (visit_all left i s)
unfolding visit_all
visits_only zero i s = record { same = refl }
visits_only (suc left) i s = only_trans (visit_only s i) (visits_only left (i + 1) (visit s i))

-- A sound network after a change of the nodes only.
only-IsSound : (s s' : Synapses) → OnlyNodes s s' → AreCalm s'.nodes → IsSound s → IsSound s'
only-IsSound s s' only calm v = record {
  calm = calm;
  links =
      λ k. subst (λ (f : ℕ → Link). IsLink (f k)) (sym (ap (λ x. x.links) only.same)) (v.links k);
  few_nodes = omega (arith, ap (λ x. x.node_count) only.same, v.few_nodes);
  few_links = omega (arith, ap (λ x. x.link_count) only.same, v.few_links);
}

stimuli-AreCalm :
    (s : Synapses) (signals : List (ℕ × ℤ))
    → AreCalm s.nodes
    → AreCalm (stimulate_all s signals).nodes
unfolding stimulate_all
stimuli-AreCalm s [] v = v
stimuli-AreCalm s ((node_id, signal) ∷ rest) v =
    stimuli-AreCalm (stimulate s node_id signal) rest (stimulate-AreCalm s v node_id signal)

pub stimulate-IsSound :
    (s : Synapses) (node_id : ℕ) (signal : ℤ) → IsSound s → IsSound (stimulate s node_id signal)
stimulate-IsSound s node_id signal v =
    only-IsSound s (stimulate s node_id signal) (stimulate_only s node_id signal)
      (stimulate-AreCalm s v.calm node_id signal) v

pub propagate-IsSound : (s : Synapses) → IsSound s → IsSound (propagate s)
unfolding propagate
propagate-IsSound s v =
    let cleared = record s {
      recently_fired = λ i. if ltb i max_nodes then false else s.recently_fired i;
    } in
    let first : OnlyNodes s cleared = record { same = refl } in
    only-IsSound s (visit_all s.node_count 0 cleared)
      (only_trans first (visits_only s.node_count 0 cleared))
      (visit_all-AreCalm s.node_count 0 cleared v.calm) v

pub learning-IsSound : (s : Synapses) → IsSound s → IsSound (hebbian_learning s)
learning-IsSound s v =
    let (links, nodes, count, sum) = learning_lem s v.links in
    record {
      calm = λ i. subst (λ (f : ℕ → Node). IsCalm (f i)) (sym nodes) (v.calm i);
      links = links;
      few_nodes = omega (arith, (learning-Rests 0 s).count, v.few_nodes);
      few_links = omega (arith, count, v.few_links);
    }

beat-IsSound : (s : Synapses) (signals : List (ℕ × ℤ)) → IsSound s → IsSound (beat s signals)
unfolding beat
beat-IsSound s signals v =
    let fed =
      only-IsSound s (stimulate_all s signals) (stimuli_only s signals)
        (stimuli-AreCalm s signals v.calm) v in
    learning-IsSound (propagate (stimulate_all s signals))
      (propagate-IsSound (stimulate_all s signals) fed)

Step-IsSound : {s t : Synapses} → Step s t → IsSound s → IsSound t
Step-IsSound (starts s) v = init-IsSound s v
Step-IsSound (grows s node_id threshold) v = add_node-IsSound s node_id threshold v
Step-IsSound (connects s from to weight plasticity w p) v =
    connect-IsSound s from to weight plasticity w p v
Step-IsSound (beats s signals) v = beat-IsSound s signals v

-- From zeroed statics, or any sound network, through births, new nodes, new links and beats in any
-- order: every activation and every weight stays in the range of a signed byte, every refractory
-- period at 3 at most, and there are at most 16 nodes and 64 links.
pub synapses-IsSound : (s t : Synapses) → IsSound s → Reach s t → IsSound t
synapses-IsSound s t v here = v
synapses-IsSound s t v (next {t = w} r step) = Step-IsSound step (synapses-IsSound s w v r)
