-- ===== src/Vital/Synapses/Weights.antt =====
-- The weights keep the range of a signed byte, and their sum stays bounded.
pub mod Scaling
use mathlib.Core.Path.{subst}
use native.Mathlib.Decide.{ℕ_discrete}
use operating_organism.Prelude.{
  ◌==◌, Option-cases, ℕ, zero, suc, ◌+◌, ◌*◌, ◌/◌, ◌≤◌, ◌<◌, ◌≡◌, refl, sym, ap, ◌∙◌, ◌≢◌, ◌⊎◌, inl,
  inr, Bool, true, false, none, arith,
}
use operating_organism.Prelude.Int.{ℤ, pos, negsuc, ◌+ℤ◌, abs, scale}
use operating_organism.Vital.Synapses.{
  Link, Synapses, at_index, last_from, reinforce, depress, learnt_weight, learn_link, learn_links,
}
use operating_organism.Vital.Synapses.Activation.{InByte}

pub record IsLink (l : Link) : Type 0 where
  pub weight : InByte l.weight
  pub plasticity : l.plasticity < 256

reinforce-InByte : (w : ℤ) (p : ℕ) → InByte w → p < 256 → InByte (reinforce w p)
unfolding ◌+ℤ◌
reinforce-InByte (pos n) p h q = ground (arith, h)
reinforce-InByte (negsuc n) p h q = ground (arith, h)

depress-InByte : (w : ℤ) → InByte w → InByte (depress w)
unfolding ◌+ℤ◌
depress-InByte (pos n) h = ground (arith, h)
depress-InByte (negsuc n) h = ground (arith, h)

learnt-InByte :
    (from to : Bool) (w : ℤ) (p : ℕ) → InByte w → p < 256 → InByte (learnt_weight from to w p)
learnt-InByte true true w p h q = reinforce-InByte w p h q
learnt-InByte true false w p h q = depress-InByte w h
learnt-InByte false true w p h q = h
learnt-InByte false false w p h q = h

-- The sum of the absolute weights of the links from `i` on.
pub sum_weights : ℕ → ℕ → (ℕ → Link) → ℕ
sum_weights zero i links = 0
sum_weights (suc left) i links = abs (links i).weight + sum_weights left (i + 1) links

-- Every link in use has nodes at both ends.
pub record IsWired (s : Synapses) : Type 0 where
  pub from_known :
      (i : ℕ)
      → i < s.link_count
      → last_from s.node_count 0 s.nodes (s.links i).from_node none ≢ none
  pub to_known :
      (i : ℕ) → i < s.link_count → last_from s.node_count 0 s.nodes (s.links i).to_node none ≢ none

pub abs-scale : (w : ℤ) (n d : ℕ) → abs (scale w n d) ≡ abs w * n / d
abs-scale (pos a) n d = ground arith
abs-scale (negsuc a) n d = ground arith

-- What one link's learning leaves: the same ends, a weight in range, and its share of the sum.
record Learnt (s : Synapses) (i total : ℕ) (s' : Synapses) (total' : ℕ) : Type 0 where
  only_links : s' ≡ record s { links = s'.links }
  others : (k : ℕ) → i ≢ k → s'.links k ≡ s.links k
  from_same : (s'.links i).from_node ≡ (s.links i).from_node
  to_same : (s'.links i).to_node ≡ (s.links i).to_node
  sound : IsLink (s.links i) → IsLink (s'.links i)
  counted :
      last_from s.node_count 0 s.nodes (s.links i).from_node none ≢ none
      → last_from s.node_count 0 s.nodes (s.links i).to_node none ≢ none
      → total' ≡ total + abs (s'.links i).weight

at_here : (links : ℕ → Link) (i : ℕ) (l : Link) → at_index links i l i ≡ l
at_here links i l = let here : (i == i) ≡ true = ground arith in rw here refl

at_other : (links : ℕ → Link) (i k : ℕ) (l : Link) → i ≢ k → at_index links i l k ≡ links k
at_other links i k l ne = let other : (i == k) ≡ false = ground (arith, ne) in rw other refl

module _ (s : Synapses) (i total : ℕ) where
  passed_over :
      (last_from s.node_count 0 s.nodes (s.links i).from_node none ≡ none)
        ⊎ (last_from s.node_count 0 s.nodes (s.links i).to_node none ≡ none)
      → Learnt s i total s total
  passed_over (inl unknown) = record {
    only_links = refl;
    others = λ k ne. refl;
    from_same = refl;
    to_same = refl;
    sound = λ v. v;
    counted = λ f t. absurd (f unknown);
  }
  passed_over (inr unknown) = record {
    only_links = refl;
    others = λ k ne. refl;
    from_same = refl;
    to_same = refl;
    sound = λ v. v;
    counted = λ f t. absurd (t unknown);
  }

  written :
      (from to : Bool)
      → let l = s.links i in
        let w = learnt_weight from to l.weight l.plasticity in
        Learnt s i total
          (record s { links = at_index s.links i (record l { weight = w }) })
          (total + abs w)
  written from to =
      let l = s.links i in
      let w = learnt_weight from to l.weight l.plasticity in
      let own = at_here s.links i (record l { weight = w }) in
      record {
        only_links = refl;
        others = λ k ne. at_other s.links i k (record l { weight = w }) ne;
        from_same = ap (λ x. x.from_node) own;
        to_same = ap (λ x. x.to_node) own;
        sound = λ v. subst IsLink (sym own) (record {
          weight = learnt-InByte from to l.weight l.plasticity v.weight v.plasticity;
          plasticity = v.plasticity;
        });
        counted = λ f t. ap (λ (x : Link). total + abs x.weight) (sym own);
      }

  learn_link_lem : let (s', total') = learn_link s i total in Learnt s i total s' total'
  unfolding learn_link
  learn_link_lem =
      elim (Option-cases (last_from s.node_count 0 s.nodes (s.links i).from_node none)) [
        | inl unknown ↦ rw (unknown, learn_link) (passed_over (inl unknown))
        | inr (from, from_found) ↦
            elim (Option-cases (last_from s.node_count 0 s.nodes (s.links i).to_node none)) [
              | inl unknown ↦ rw (from_found, unknown, learn_link) (passed_over (inr unknown))
              | inr (to, to_found) ↦
                  rw (from_found, to_found, learn_link)
                    (written (s.recently_fired from) (s.recently_fired to))
            ]
      ]

-- What the loop leaves, on the links from `i` on.
pub record Pass (left i : ℕ) (s : Synapses) (total : ℕ) (s' : Synapses) (total' : ℕ) : Type 0 where
  pub only_links : s' ≡ record s { links = s'.links }
  pub before : (k : ℕ) → k < i → s'.links k ≡ s.links k
  pub sound : ((k : ℕ) → IsLink (s.links k)) → (k : ℕ) → IsLink (s'.links k)
  pub counted : IsWired s → i + left ≤ s.link_count → total' ≡ total + sum_weights left i s'.links

module _ (s : Synapses) (i total : ℕ) (s' : Synapses) (total' : ℕ)
    (learnt : Learnt s i total s' total') where
  ends_same :
      (k : ℕ)
      → ((s'.links k).from_node ≡ (s.links k).from_node)
        × ((s'.links k).to_node ≡ (s.links k).to_node)
  ends_same k = elim (ℕ_discrete i k) [
    | yes e ↦
        subst
          (λ x.
            ((s'.links x).from_node ≡ (s.links x).from_node)
            × ((s'.links x).to_node ≡ (s.links x).to_node))
          e (learnt.from_same, learnt.to_same)
    | no ne ↦ (ap (λ x. x.from_node) (learnt.others k ne), ap (λ x. x.to_node) (learnt.others k ne))
  ]

  still-IsWired : IsWired s → IsWired s'
  still-IsWired v =
      let e = learnt.only_links in
      record {
        from_known = λ k hk h.
            v.from_known k (subst (λ n. k < n) (ap (λ x. x.link_count) e) hk)
              (sym (λ j. last_from (e j).node_count 0 (e j).nodes ((ends_same k).0 j) none) ∙ h);
        to_known = λ k hk h.
            v.to_known k (subst (λ n. k < n) (ap (λ x. x.link_count) e) hk)
              (sym (λ j. last_from (e j).node_count 0 (e j).nodes ((ends_same k).1 j) none) ∙ h);
      }

  still_sound : ((k : ℕ) → IsLink (s.links k)) → (k : ℕ) → IsLink (s'.links k)
  still_sound v k = elim (ℕ_discrete i k) [
    | yes e ↦ subst (λ x. IsLink (s'.links x)) e (learnt.sound (v i))
    | no ne ↦ subst IsLink (sym (learnt.others k ne)) (v k)
  ]

pub learn_links_lem :
    (left i : ℕ) (s : Synapses) (total : ℕ)
    → let (s', total') = learn_links left i s total in Pass left i s total s' total'
unfolding learn_links sum_weights
learn_links_lem zero i s total = record {
  only_links = refl;
  before = λ k hk. refl;
  sound = λ v. v;
  counted = λ v h. omega arith;
}
learn_links_lem (suc left) i s total =
    let (s₁, t₁) = learn_link s i total in
    let one = learn_link_lem s i total in
    let rest = learn_links_lem left (i + 1) s₁ t₁ in
    let (s', t') = learn_links left (i + 1) s₁ t₁ in
    let count : s₁.link_count ≡ s.link_count = ap (λ x. x.link_count) one.only_links in
    record {
      only_links =
          rest.only_links
          ∙ ap {B = Synapses} (λ (x : Synapses). record x { links = s'.links }) one.only_links;
      before = λ k hk. rest.before k (omega arith) ∙ one.others k (λ e. absurd (omega (arith, e)));
      sound = λ v. rest.sound (still_sound s i total s₁ t₁ one v);
      counted = λ v h.
          let here = one.counted (v.from_known i (omega arith)) (v.to_known i (omega arith)) in
          let own : abs (s'.links i).weight ≡ abs (s₁.links i).weight =
            ap (λ (x : Link). abs x.weight) (rest.before i (omega arith)) in
          let later = rest.counted (still-IsWired s i total s₁ t₁ one v) (omega (arith, count)) in
          omega (arith, here, own, later);
    }
