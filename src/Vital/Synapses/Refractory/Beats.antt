-- ===== src/Vital/Synapses/Refractory/Beats.antt =====
-- The network beat by beat.
use operating_organism.Prelude.{
  ltb, if◌then◌else◌, lt→ltb, Bool-cases, ℕ, ◌-◌, ◌≤◌, ◌<◌, ◌≡◌, refl, sym, ap, ◌∙◌, inl, inr, true,
  false, List, [], ◌∷◌, arith,
}
use operating_organism.Prelude.Int.{ℤ}
use operating_organism.Vital.Synapses.{
  max_nodes, Synapses, stimulate, propagate, learn_links, hebbian_learning,
}
use operating_organism.Vital.Synapses.Refractory.{
  Rests, Rests-trans, Rests-same, stimulate-Rests, Turn, visits_turn, visits_count,
}
use operating_organism.Vital.Synapses.Weights.{learn_links_lem}

-- Signals from the rest of the body, then the two calls of the life loop.
unfoldable pub stimulate_all : Synapses → List (ℕ × ℤ) → Synapses
stimulate_all s [] = s
stimulate_all s ((node_id, signal) ∷ rest) = stimulate_all (stimulate s node_id signal) rest

unfoldable pub beat : Synapses → List (ℕ × ℤ) → Synapses
unfolding stimulate_all
beat s signals = hebbian_learning (propagate (stimulate_all s signals))

module _ (k : ℕ) where
  stimuli_rest : (s : Synapses) (signals : List (ℕ × ℤ)) → Rests k s (stimulate_all s signals)
  unfolding stimulate_all
  stimuli_rest s [] = Rests-same k s
  stimuli_rest s ((node_id, signal) ∷ rest) =
      Rests-trans (stimulate-Rests k s node_id signal)
        (stimuli_rest (stimulate s node_id signal) rest)

  pub learning-Rests : (s : Synapses) → Rests k s (hebbian_learning s)
  unfolding hebbian_learning
  learning-Rests s =
      let only = (learn_links_lem s.link_count 0 s 0).only_links in
      let kept : Rests k s (learn_links s.link_count 0 s 0).0 = record {
        refractory = ap (λ x. (x.nodes k).refractory) only;
        fired = ap (λ x. x.recently_fired k) only;
        count = ap (λ x. x.node_count) only;
      } in
      elim (Bool-cases (ltb 1000 (learn_links s.link_count 0 s 0).1)) [
        | inl over ↦
            rw (over, hebbian_learning)
              (record { refractory = kept.refractory; fired = kept.fired; count = kept.count })
        | inr fits ↦ rw (fits, hebbian_learning) kept
      ]

  -- One beat, seen at the node.
  record Beat (s s' : Synapses) : Type 0 where
    rests : 0 < (s.nodes k).refractory → (s'.nodes k).refractory ≡ (s.nodes k).refractory - 1
    quiet : 0 < (s.nodes k).refractory → s'.recently_fired k ≡ false
    tires : s'.recently_fired k ≡ true → (s'.nodes k).refractory ≡ 3
    count : s'.node_count ≡ s.node_count

  propagate_turn : (s : Synapses) → k < s.node_count → k < max_nodes → Beat s (propagate s)
  unfolding propagate
  propagate_turn s used small =
      let cleared = record s {
        recently_fired = λ i. if ltb i max_nodes then false else s.recently_fired i;
      } in
      let dark : cleared.recently_fired k ≡ false = rw (lt→ltb k max_nodes small) refl in
      let count = visits_count s.node_count 0 cleared in
      elim (visits_turn k s.node_count 0 cleared (omega arith) (omega arith)) [
        | Turn.rested some_left less same ↦ record {
          rests = λ h. less;
          quiet = λ h. same ∙ dark;
          tires = λ h. absurd (cc (h, same, dark));
          count = count;
        }
        | Turn.fired over three now ↦ record {
          rests = λ h. absurd (omega (arith, over));
          quiet = λ h. absurd (omega (arith, over));
          tires = λ h. three;
          count = count;
        }
        | Turn.silent over none_left same ↦ record {
          rests = λ h. absurd (omega (arith, over));
          quiet = λ h. absurd (omega (arith, over));
          tires = λ h. absurd (cc (h, same, dark));
          count = count;
        }
      ]

  beat_lem :
      (s : Synapses) (signals : List (ℕ × ℤ))
      → k < s.node_count
      → k < max_nodes
      → Beat s (beat s signals)
  unfolding beat
  beat_lem s signals used small =
      let first = stimuli_rest s signals in
      let turn = propagate_turn (stimulate_all s signals) (omega (arith, first.count)) small in
      let last = learning-Rests (propagate (stimulate_all s signals)) in
      record {
        rests = λ h. omega (
          arith,
          turn.rests (omega (arith, first.refractory)),
          first.refractory,
          last.refractory,
        );
        quiet = λ h. last.fired ∙ turn.quiet (omega (arith, first.refractory));
        tires = λ h. last.refractory ∙ turn.tires (sym last.fired ∙ h);
        count = last.count ∙ turn.count ∙ first.count;
      }

-- A node that fires in one beat fires in none of the three beats that follow, whatever signals come
-- in and whatever the links learn.
pub refractory_lem :
    (s : Synapses) (k : ℕ) (first second third fourth : List (ℕ × ℤ))
    → k < s.node_count
    → s.node_count ≤ max_nodes
    → let s₁ = beat s first in
      let s₂ = beat s₁ second in
      let s₃ = beat s₂ third in
      let s₄ = beat s₃ fourth in
      s₁.recently_fired k ≡ true
      → (s₂.recently_fired k ≡ false)
        × (s₃.recently_fired k ≡ false)
        × (s₄.recently_fired k ≡ false)
refractory_lem s k first second third fourth used few fires =
    let s₁ = beat s first in
    let s₂ = beat s₁ second in
    let s₃ = beat s₂ third in
    let b₁ = beat_lem k s first used (omega arith) in
    let b₂ = beat_lem k s₁ second (omega (arith, b₁.count)) (omega arith) in
    let b₃ = beat_lem k s₂ third (omega (arith, b₁.count, b₂.count)) (omega arith) in
    let b₄ = beat_lem k s₃ fourth (omega (arith, b₁.count, b₂.count, b₃.count)) (omega arith) in
    let three : (s₁.nodes k).refractory ≡ 3 = b₁.tires fires in
    let two : (s₂.nodes k).refractory ≡ 2 = omega (arith, b₂.rests (omega (arith, three)), three) in
    let one : (s₃.nodes k).refractory ≡ 1 = omega (arith, b₃.rests (omega (arith, two)), two) in
    (b₂.quiet (omega (arith, three)), b₃.quiet (omega (arith, two)), b₄.quiet (omega (arith, one)))
