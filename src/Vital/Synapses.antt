-- ===== src/Vital/Synapses.antt =====
-- The synapse network (vital-baremetal/src/synapse_network.c and include/vital_synapse.h): nodes that
-- fire, links that carry the firing on, and the learning of their weights.
pub mod Activation
pub mod Refractory
pub mod Weights
pub mod Lives
mod Examples
use operating_organism.Prelude.{
  ltb, leb, ◌==◌, if◌then◌else◌, not, u32, ℕ, zero, suc, ◌+◌, ◌-◌, ◌/◌, Bool, true, false, ◌&&◌,
  Option, none, some,
}
use operating_organism.Prelude.Int.{ℤ, pos, negsuc, ◌+ℤ◌, ltb_ℤ, leb_ℤ, abs, scale}

abbrev pub max_nodes : ℕ
max_nodes = 16

abbrev pub max_links : ℕ
max_links = 64

-- `oo_synapse_node_t` and `oo_synapse_link_t`
pub record Node : Type 0 where
  pub node_id : ℕ
  pub activation : ℤ
  pub threshold : ℕ
  pub refractory : ℕ
  pub fire_count : ℕ

pub record Link : Type 0 where
  pub from_node : ℕ
  pub to_node : ℕ
  pub weight : ℤ
  pub plasticity : ℕ

-- The statics; the arrays are functions of the index.
pub record Synapses : Type 0 where
  pub nodes : ℕ → Node
  pub links : ℕ → Link
  pub node_count : ℕ
  pub link_count : ℕ
  pub recently_fired : ℕ → Bool

abbrev pub at_index {ℓ} : {A : Type ℓ} → (ℕ → A) → ℕ → A → ℕ → A
at_index f i a j = if i == j then a else f j

-- `synapse_init`
unfoldable pub init : Synapses → Synapses
init s = record s {
  node_count = 0;
  link_count = 0;
  nodes = λ i.
      if ltb i max_nodes
      then record (s.nodes i) { activation = pos 0; refractory = 0; fire_count = 0 }
      else s.nodes i;
  recently_fired = λ i. if ltb i max_nodes then false else s.recently_fired i;
}

-- `synapse_add_node`; true for its 0, false for its -1.
unfoldable pub add_node : Synapses → ℕ → ℕ → Synapses × Bool
add_node s node_id threshold = if leb max_nodes s.node_count then (s, false) else (
  record s {
    nodes = at_index s.nodes s.node_count (record {
      node_id = node_id;
      activation = pos 0;
      threshold = threshold;
      refractory = 0;
      fire_count = 0;
    });
    node_count = s.node_count + 1;
  },
  true,
)

-- `synapse_connect`
unfoldable pub connect : Synapses → ℕ → ℕ → ℤ → ℕ → Synapses × Bool
connect s from to weight plasticity = if leb max_links s.link_count then (s, false) else (
  record s {
    links =
        at_index s.links s.link_count
          (record { from_node = from; to_node = to; weight = weight; plasticity = plasticity });
    link_count = s.link_count + 1;
  },
  true,
)

-- `find_node`, on the nodes left from `i` on: the first with the id.
pub find_from : ℕ → ℕ → (ℕ → Node) → ℕ → Option ℕ
find_from zero i nodes node_id = none
find_from (suc left) i nodes node_id =
    let rest = find_from left (i + 1) nodes node_id in
    if (nodes i).node_id == node_id then some i else rest

abbrev pub clamp : ℤ → ℤ
clamp a =
    let a' = if ltb_ℤ (pos 127) a then pos 127 else a in
    if ltb_ℤ a' (negsuc 127) then negsuc 127 else a'

-- `synapse_stimulate`
unfoldable pub stimulate : Synapses → ℕ → ℤ → Synapses
unfolding find_from
stimulate s node_id signal = elim (find_from s.node_count 0 s.nodes node_id) [
  | none ↦ s
  | some i ↦ record s {
    nodes =
        at_index s.nodes i
          (record (s.nodes i) { activation = clamp ((s.nodes i).activation +ℤ signal) });
  }
]

-- What a link does when the node `i` fires.
unfoldable pub carry : Synapses → ℕ → Link → Synapses
unfolding find_from
carry s i link =
    if link.from_node == (s.nodes i).node_id
    then (elim (find_from s.node_count 0 s.nodes link.to_node) [
      | none ↦ s
      | some t ↦ stimulate s (s.nodes t).node_id link.weight
    ])
    else s

-- The inner loop of `synapse_propagate`, on the links left from `j` on, for a node that fires.
unfoldable pub transmit : ℕ → ℕ → Synapses → ℕ → Synapses
transmit zero j s i = s
transmit (suc left) j s i = transmit left (j + 1) (carry s i (s.links j)) i

-- The leak at the end of a visit: two tests in turn.
abbrev pub leak : ℤ → ℤ
leak a =
    let a' = if ltb_ℤ (pos 0) a then a +ℤ negsuc 0 else a in
    if ltb_ℤ a' (pos 0) then a' +ℤ pos 1 else a'

-- The firing of the node `i`, before it transmits.
abbrev pub spark : Synapses → ℕ → Synapses
spark s i =
    let n = s.nodes i in
    record s {
      recently_fired = at_index s.recently_fired i true;
      nodes = at_index s.nodes i (record n { fire_count = u32 (n.fire_count + 1); refractory = 3 });
    }

abbrev pub leak_at : Synapses → ℕ → Synapses
leak_at s i = record s {
  nodes = at_index s.nodes i (record (s.nodes i) { activation = leak (s.nodes i).activation });
}

-- The body of the outer loop of `synapse_propagate` for the node `i`.
unfoldable pub visit : Synapses → ℕ → Synapses
visit s i =
    let n = s.nodes i in
    if ltb 0 n.refractory
    then record s { nodes = at_index s.nodes i (record n { refractory = n.refractory - 1 }) }
    else leak_at
        (if leb_ℤ (pos n.threshold) n.activation then transmit s.link_count 0 (spark s i) i else s)
        i

unfoldable pub visit_all : ℕ → ℕ → Synapses → Synapses
visit_all zero i s = s
visit_all (suc left) i s = visit_all left (i + 1) (visit s i)

-- `synapse_propagate`
unfoldable pub propagate : Synapses → Synapses
propagate s =
    visit_all s.node_count 0
      (record s { recently_fired = λ i. if ltb i max_nodes then false else s.recently_fired i })

-- The search of `synapse_hebbian_learning`: the last node with the id, if there is one.
pub last_from : ℕ → ℕ → (ℕ → Node) → ℕ → Option ℕ → Option ℕ
last_from zero j nodes node_id found = found
last_from (suc left) j nodes node_id found =
    last_from left (j + 1) nodes node_id (if (nodes j).node_id == node_id then some j else found)

-- The two changes of a weight, by what the ends have done.
abbrev pub reinforce : ℤ → ℕ → ℤ
reinforce weight plasticity =
    let r = plasticity / 32 + 1 in if ltb_ℤ weight (pos (127 - r)) then weight +ℤ pos r else pos 127

abbrev pub depress : ℤ → ℤ
depress weight = if ltb_ℤ (negsuc 119) weight then weight +ℤ negsuc 0 else weight

abbrev pub learnt_weight : Bool → Bool → ℤ → ℕ → ℤ
learnt_weight from_fired to_fired weight plasticity =
    let w = if from_fired && to_fired then reinforce weight plasticity else weight in
    if from_fired && not to_fired then depress w else w

-- The body of the first loop of `synapse_hebbian_learning` for the link `i`, with the sum so far. A
-- link with an unknown end is passed over.
unfoldable pub learn_link : Synapses → ℕ → ℕ → Synapses × ℕ
unfolding last_from
learn_link s i total =
    let l = s.links i in
    elim (last_from s.node_count 0 s.nodes l.from_node none) [
      | none ↦ (s, total)
      | some from ↦ elim (last_from s.node_count 0 s.nodes l.to_node none) [
        | none ↦ (s, total)
        | some to ↦
            let w =
              learnt_weight (s.recently_fired from) (s.recently_fired to) l.weight l.plasticity in
            (record s { links = at_index s.links i (record l { weight = w }) }, total + abs w)
      ]
    ]

unfoldable pub learn_links : ℕ → ℕ → Synapses → ℕ → Synapses × ℕ
learn_links zero i s total = (s, total)
learn_links (suc left) i s total =
    let (s', total') = learn_link s i total in learn_links left (i + 1) s' total'

-- `synapse_hebbian_learning`: the normalisation is the second part.
unfoldable pub hebbian_learning : Synapses → Synapses
hebbian_learning s =
    let (s', total) = learn_links s.link_count 0 s 0 in
    if ltb 1000 total
    then record s' {
      links = λ i.
          if ltb i s'.link_count
          then record (s'.links i) { weight = scale (s'.links i).weight 950 total }
          else s'.links i;
    }
    else s'

-- `synapse_get_activation`
unfoldable pub get_activation : Synapses → ℕ → ℤ
unfolding find_from
get_activation s node_id = elim (find_from s.node_count 0 s.nodes node_id) [
  | none ↦ pos 0
  | some i ↦ (s.nodes i).activation
]
