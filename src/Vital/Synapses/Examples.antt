-- ===== src/Vital/Synapses/Examples.antt =====
-- A network of two nodes and two links.
use operating_organism.Prelude.{ℕ, ◌≤◌, ◌≡◌, refl, true, false, List, [], ◌∷◌, arith}
use operating_organism.Prelude.Int.{ℤ, pos, negsuc, ◌+ℤ◌}
use operating_organism.Vital.Synapses.{
  Node, Link, Synapses, init, add_node, connect, stimulate, carry, transmit, visit, visit_all,
  propagate, learn_link, learn_links, hebbian_learning,
}
use operating_organism.Vital.Synapses.Activation.{IsCalm}
use operating_organism.Vital.Synapses.Weights.{IsLink, sum_weights, IsWired}
use operating_organism.Vital.Synapses.Weights.Scaling.{learning_lem}
use operating_organism.Vital.Synapses.Lives.{
  IsSound, starts, grows, connects, Reach, here, next, synapses-IsSound,
}
use operating_organism.Vital.Synapses.Refractory.Beats.{beat, refractory_lem}

abbrev still : Node
still = record { node_id = 99; activation = pos 0; threshold = 0; refractory = 0; fire_count = 0 }

abbrev loose : Link
loose = record { from_node = 99; to_node = 99; weight = pos 0; plasticity = 0 }

abbrev boot : Synapses
boot = record {
  nodes = λ i. still;
  links = λ i. loose;
  node_count = 0;
  link_count = 0;
  recently_fired = λ i. false;
}

still-IsCalm : IsCalm still
still-IsCalm = record { activation = (omega arith, omega arith); refractory = omega arith }

loose-IsLink : IsLink loose
loose-IsLink = record { weight = (omega arith, omega arith); plasticity = omega arith }

boot-IsSound : IsSound boot
boot-IsSound = record {
  calm = λ i. still-IsCalm;
  links = λ k. loose-IsLink;
  few_nodes = omega arith;
  few_links = omega arith;
}

-- Pain excites consciousness, and is inhibited by it.
abbrev pain : Synapses
pain = (add_node (init boot) 0 30).0

abbrev wired : Synapses
wired = (connect (connect (add_node pain 2 50).0 0 2 (pos 80) 200).0 2 0 (negsuc 19) 50).0

grown_well : Reach boot wired
grown_well =
    next
      (next (next (next (next here (starts boot)) (grows (init boot) 0 30)) (grows pain 2 50))
        (connects (add_node pain 2 50).0 0 2 (pos 80) 200 (omega arith, omega arith) (omega arith)))
      (connects (connect (add_node pain 2 50).0 0 2 (pos 80) 200).0 2 0 (negsuc 19) 50
        (omega arith, omega arith) (omega arith))

synapses-IsSound_example : IsSound wired
synapses-IsSound_example = synapses-IsSound boot wired boot-IsSound grown_well

abbrev net : Synapses
net = record boot {
  nodes = λ i. record still { node_id = i; threshold = 30 };
  links = λ i. record loose { from_node = 0; to_node = 1; weight = pos 80; plasticity = 200 };
  node_count = 2;
  link_count = 1;
}

net-IsLinks : (k : ℕ) → IsLink (net.links k)
net-IsLinks k = record { weight = (omega arith, omega arith); plasticity = omega arith }

learning_example :
    let s' = hebbian_learning net in
    ((k : ℕ) → IsLink (s'.links k))
    × (s'.nodes ≡ net.nodes)
    × (s'.link_count ≡ net.link_count)
    × (IsWired net → sum_weights net.link_count 0 s'.links ≤ 1000)
learning_example = learning_lem net net-IsLinks

-- A burning pain fires its node, and that the node behind it.
abbrev burn : List (ℕ × ℤ)
burn = (0, pos 100) ∷ []

fires : (beat net burn).recently_fired 0 ≡ true
unfolding beat hebbian_learning propagate learn_links learn_link transmit carry stimulate visit
    visit_all ◌+ℤ◌
fires = refl

refractory_example :
    let s₁ = beat net burn in
    let s₂ = beat s₁ burn in
    let s₃ = beat s₂ [] in
    let s₄ = beat s₃ burn in
    (s₂.recently_fired 0 ≡ false) × (s₃.recently_fired 0 ≡ false) × (s₄.recently_fired 0 ≡ false)
refractory_example = refractory_lem net 0 burn burn [] burn (omega arith) (omega arith) fires
