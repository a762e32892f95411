-- ===== src/Vital/Synapses/Refractory.antt =====
-- A node that has fired rests for three propagations.
pub mod Beats
use mathlib.Core.Path.{subst}
use native.Mathlib.Decide.{ℕ_discrete}
use operating_organism.Prelude.{
  ltb, ◌==◌, ltb→lt, Bool-cases, Option-cases, ℕ, zero, suc, ◌+◌, ◌-◌, ◌≤◌, ◌<◌, ◌≡◌, refl, sym, ap,
  ◌∙◌, ◌≢◌, inl, inr, true, false, arith,
}
use operating_organism.Prelude.Int.{ℤ, pos, leb_ℤ}
use operating_organism.Vital.Synapses.{
  Link, Synapses, at_index, find_from, stimulate, carry, transmit, spark, visit, visit_all,
}

-- What every part of a propagation but the visit of the node itself leaves alone.
pub record Rests (k : ℕ) (s s' : Synapses) : Type 0 where
  pub refractory : (s'.nodes k).refractory ≡ (s.nodes k).refractory
  pub fired : s'.recently_fired k ≡ s.recently_fired k
  pub count : s'.node_count ≡ s.node_count

pub Rests-trans : {k : ℕ} {s t u : Synapses} → Rests k s t → Rests k t u → Rests k s u
Rests-trans a b = record {
  refractory = b.refractory ∙ a.refractory;
  fired = b.fired ∙ a.fired;
  count = b.count ∙ a.count;
}

pub Rests-same : (k : ℕ) (s : Synapses) → Rests k s s
Rests-same k s = record { refractory = refl; fired = refl; count = refl }

-- A new activation is no change of the rest.
activate-Rests :
    (k : ℕ) (s : Synapses) (i : ℕ) (a : ℤ)
    → Rests k s (record s { nodes = at_index s.nodes i (record (s.nodes i) { activation = a }) })
activate-Rests k s i a = elim (Bool-cases (i == k)) [
  | inl here ↦
      let e : i ≡ k = ground (arith, here) in
      record {
        refractory = rw here (ap (λ t. (s.nodes t).refractory) e);
        fired = refl;
        count = refl;
      }
  | inr other ↦ record { refractory = rw other refl; fired = refl; count = refl }
]

module _ (k : ℕ) where
  pub stimulate-Rests :
      (s : Synapses) (node_id : ℕ) (signal : ℤ) → Rests k s (stimulate s node_id signal)
  unfolding stimulate
  stimulate-Rests s node_id signal =
      elim (Option-cases (find_from s.node_count 0 s.nodes node_id)) [
        | inl missing ↦ rw (missing, stimulate) (Rests-same k s)
        | inr (i, found) ↦ rw (found, stimulate) (activate-Rests k s i _)
      ]

  carry-Rests : (s : Synapses) (i : ℕ) (link : Link) → Rests k s (carry s i link)
  unfolding carry
  carry-Rests s i link = elim (Bool-cases (link.from_node == (s.nodes i).node_id)) [
    | inl mine ↦ elim (Option-cases (find_from s.node_count 0 s.nodes link.to_node)) [
      | inl missing ↦ rw (mine, missing, carry) (Rests-same k s)
      | inr (t, found) ↦ rw (mine, found, carry) (stimulate-Rests s (s.nodes t).node_id link.weight)
    ]
    | inr other ↦ rw (other, carry) (Rests-same k s)
  ]

  transmit-Rests : (left j : ℕ) (s : Synapses) (i : ℕ) → Rests k s (transmit left j s i)
  unfolding transmit
  transmit-Rests zero j s i = Rests-same k s
  transmit-Rests (suc left) j s i =
      Rests-trans (carry-Rests s i (s.links j))
        (transmit-Rests left (j + 1) (carry s i (s.links j)) i)

  -- The visit of another node.
  spark-Rests : (s : Synapses) (i : ℕ) → i ≢ k → Rests k s (spark s i)
  spark-Rests s i ne =
      let other : (i == k) ≡ false = ground (arith, ne) in
      record { refractory = rw other refl; fired = rw other refl; count = refl }

  visit-Rests : (s : Synapses) (i : ℕ) → i ≢ k → Rests k s (visit s i)
  unfolding visit
  visit-Rests s i ne =
      let other : (i == k) ≡ false = ground (arith, ne) in
      elim (Bool-cases (ltb 0 (s.nodes i).refractory)) [
        | inl resting ↦
            rw (resting, visit) (record { refractory = rw other refl; fired = refl; count = refl })
        | inr awake ↦ elim (Bool-cases (leb_ℤ (pos (s.nodes i).threshold) (s.nodes i).activation)) [
          | inl fires ↦
              let after = transmit s.link_count 0 (spark s i) i in
              rw (awake, fires, visit)
                (Rests-trans (spark-Rests s i ne) (
                  Rests-trans (transmit-Rests s.link_count 0 (spark s i) i)
                    (activate-Rests k after i _)))
          | inr silent ↦ rw (awake, silent, visit) (activate-Rests k s i _)
        ]
      ]

  -- The visit of the node itself: it rests on, it fires, or it stays silent.
  pub data Turn (s s' : Synapses) : Type 0 where
    rested :
        0 < (s.nodes k).refractory
        → (s'.nodes k).refractory ≡ (s.nodes k).refractory - 1
        → s'.recently_fired k ≡ s.recently_fired k
        → Turn s s'
    fired :
        (s.nodes k).refractory ≡ 0
        → (s'.nodes k).refractory ≡ 3
        → s'.recently_fired k ≡ true
        → Turn s s'
    silent :
        (s.nodes k).refractory ≡ 0
        → (s'.nodes k).refractory ≡ 0
        → s'.recently_fired k ≡ s.recently_fired k
        → Turn s s'

  visit_turn : (s : Synapses) → Turn s (visit s k)
  unfolding visit
  visit_turn s =
      let here : (k == k) ≡ true = ground arith in
      elim (Bool-cases (ltb 0 (s.nodes k).refractory)) [
        | inl resting ↦ rw (resting, visit) (rested (ltb→lt 0 _ resting) (rw here refl) refl)
        | inr awake ↦
            let over : (s.nodes k).refractory ≡ 0 = ground (arith, awake) in
            elim (Bool-cases (leb_ℤ (pos (s.nodes k).threshold) (s.nodes k).activation)) [
              | inl fires ↦
                  let after = transmit s.link_count 0 (spark s k) k in
                  let kept =
                    Rests-trans (transmit-Rests s.link_count 0 (spark s k) k)
                      (activate-Rests k after k _) in
                  rw (awake, fires, visit)
                    (fired over (kept.refractory ∙ rw here refl) (kept.fired ∙ rw here refl))
              | inr quiet ↦
                  let kept = activate-Rests k s k _ in
                  rw (awake, quiet, visit) (silent over (kept.refractory ∙ over) kept.fired)
            ]
      ]

  turn_rests : {s t u : Synapses} → Turn s t → Rests k t u → Turn s u
  turn_rests (rested some_left less same) r =
      rested some_left (r.refractory ∙ less) (r.fired ∙ same)
  turn_rests (fired over three now) r = fired over (r.refractory ∙ three) (r.fired ∙ now)
  turn_rests (silent over none_left same) r =
      silent over (r.refractory ∙ none_left) (r.fired ∙ same)

  rests_turn : {s t u : Synapses} → Rests k s t → Turn t u → Turn s u
  rests_turn r (rested some_left less same) =
      rested (omega (arith, r.refractory)) (omega (arith, r.refractory, less)) (same ∙ r.fired)
  rests_turn r (fired over three now) = fired (sym r.refractory ∙ over) three now
  rests_turn r (silent over none_left same) =
      silent (sym r.refractory ∙ over) none_left (same ∙ r.fired)

  visits_rest : (left i : ℕ) (s : Synapses) → k < i → Rests k s (visit_all left i s)
  unfolding visit_all
  visits_rest zero i s h = Rests-same k s
  visits_rest (suc left) i s h =
      Rests-trans (visit-Rests s i (λ e. absurd (omega (arith, e))))
        (visits_rest left (i + 1) (visit s i) (omega arith))

  pub visits_turn : (left i : ℕ) (s : Synapses) → i ≤ k → k < i + left → Turn s (visit_all left i s)
  unfolding visit_all
  visits_turn zero i s lo hi = absurd (omega arith)
  visits_turn (suc left) i s lo hi = elim (ℕ_discrete k i) [
    | yes e ↦
        subst (λ t. Turn s (visit_all left (t + 1) (visit s t))) e
          (turn_rests (visit_turn s) (visits_rest left (k + 1) (visit s k) (omega arith)))
    | no ne ↦
        rests_turn (visit-Rests s i (λ e. ne (sym e)))
          (visits_turn left (i + 1) (visit s i) (ground (arith, ne)) (omega arith))
  ]

pub visits_count : (left i : ℕ) (s : Synapses) → (visit_all left i s).node_count ≡ s.node_count
unfolding visit_all
visits_count zero i s = refl
visits_count (suc left) i s =
    visits_count left (i + 1) (visit s i)
    ∙ (visit-Rests (i + 1) s i (λ e. absurd (omega (arith, e)))).count
