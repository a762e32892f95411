-- ===== src/Identity/Self.antt =====
-- Which signatures the thymus takes for the self.
use mathlib.Core.List.{Mem, mem-cons, not-mem-nil, mem-cons_of_mem}
use mathlib.Core.List.Memᴰ as Memᴰ
use mathlib.Core.Logic.Or
use mathlib.Core.List.{append-nil, append_assoc}
use operating_organism.Identity as Identity
use operating_organism.Prelude.{
  ◌==◌, if◌then◌else◌, lt→ltb, Bool-cases, length, length-append, ℕ, ◌+◌, ◌≤◌, ◌<◌, ◌≡◌, refl, sym,
  ap, ◌∙◌, ◌↔◌, inl, inr, true, List, [], ◌∷◌, ◌++◌, arith,
}
use operating_organism.Bus.{Globule, pump}
use operating_organism.Identity.{max_trusted, Thymus, matches, is_known, alert, is_self, trust_dna}

==_self : (a : ℕ) → (a == a) ≡ true
==_self a = ground arith

matches_self : (s : List ℕ) → matches s s ≡ true
unfolding matches
matches_self [] = refl
matches_self (a ∷ s) = rw (==_self a) (matches_self s)

pub matches_sound : (s r : List ℕ) → matches s r ≡ true → s ≡ r
unfolding matches
matches_sound [] [] e = refl
matches_sound [] (b ∷ r) e = cc
matches_sound (a ∷ s) [] e = cc
matches_sound (a ∷ s) (b ∷ r) e = elim (Bool-cases (a == b)) [
  | inl same ↦
      let heads : a ≡ b = ground (arith, same) in
      let tails = matches_sound s r (cc (e, same)) in cc (heads, tails)
  | inr other ↦ absurd (cc (e, other))
]

-- The search finds what stands in the list, and nothing else.
known→Mem : (gs : List (List ℕ)) (s : List ℕ) → is_known gs s ≡ true → Mem s gs
unfolding is_known
known→Mem [] s e = cc
known→Mem (g ∷ gs) s e = elim (Bool-cases (matches g s)) [
  | inl same ↦ ∣ Memᴰ.head (sym (matches_sound g s same)) ∣₁
  | inr other ↦ mem-cons_of_mem g (known→Mem gs s (cc (e, other)))
]

known_head : (gs : List (List ℕ)) (g s : List ℕ) → s ≡ g → is_known (g ∷ gs) s ≡ true
unfolding is_known
known_head gs g s e = rw (ap (matches g) e ∙ matches_self g) refl

known_tail : (gs : List (List ℕ)) (g s : List ℕ) → is_known gs s ≡ true → is_known (g ∷ gs) s ≡ true
unfolding is_known
known_tail gs g s e = elim (Bool-cases (matches g s)) [
  | inl same ↦ rw same refl
  | inr other ↦ rw other e
]

Mem→known : (gs : List (List ℕ)) (s : List ℕ) → Mem s gs → is_known gs s ≡ true
Mem→known [] s m = absurd (not-mem-nil m)
Mem→known (g ∷ gs) s m =
    Or.elim (hlevel) (mem-cons.0 m) (known_head gs g s)
      (λ later. known_tail gs g s (Mem→known gs s later))

-- Trusting a list of signatures, the first one first.
unfoldable pub trust_all : Thymus → List (List ℕ) → Thymus
trust_all t [] = t
trust_all t (s ∷ ss) = trust_all (trust_dna t s) ss

trust_dna_room :
    (t : Thymus) (s : List ℕ)
    → length t.trusted_genome < max_trusted
    → trust_dna t s ≡ record t { trusted_genome = t.trusted_genome ++ (s ∷ []) }
unfolding trust_dna
trust_dna_room t s room = rw (lt→ltb (length t.trusted_genome) max_trusted room) refl

trust_all_lem :
    (t : Thymus) (ss : List (List ℕ))
    → length t.trusted_genome + length ss ≤ max_trusted
    → (trust_all t ss).trusted_genome ≡ t.trusted_genome ++ ss
unfolding trust_all
trust_all_lem t [] fits = sym (append-nil t.trusted_genome)
trust_all_lem t (s ∷ ss) fits =
    let t' = record t { trusted_genome = t.trusted_genome ++ (s ∷ []) } in
    ap (λ (u : Thymus). (trust_all u ss).trusted_genome) (trust_dna_room t s (omega (arith, fits)))
    ∙ trust_all_lem t' ss (omega (arith, fits, length-append t.trusted_genome (s ∷ [])))
    ∙ append_assoc t.trusted_genome (s ∷ []) ss

-- A thymus that starts anew and is told at most 64 signatures takes for the self exactly these:
-- the search agrees with membership, and only a foreign signature reaches the bus, as one white
-- globule to organ 1.
pub is_self_lem :
    (t : Thymus) (ss : List (List ℕ)) (junk : Globule) (addr : ℕ) (s : List ℕ)
    → length ss ≤ max_trusted
    → let told = trust_all (Identity.init t) ss in
      let (after, self) = is_self told junk addr s in
      ((self ≡ true) ↔ Mem s ss)
      × (after.trusted_genome ≡ ss)
      × (after.bus ≡ (if self then told.bus else (pump told.bus (alert junk addr)).0))
unfolding is_self
is_self_lem t ss junk addr s fits =
    let told = trust_all_lem (Identity.init t) ss (omega (arith, fits)) in
    elim (Bool-cases (is_known (trust_all (Identity.init t) ss).trusted_genome s)) [
      | inl known ↦
          rw known (
            (λ _. known→Mem ss s (sym (ap (λ g. is_known g s) told) ∙ known), λ _. refl),
            told,
            refl,
          )
      | inr foreign ↦ rw foreign (
        (λ e. absurd (cc e), λ m. sym foreign ∙ ap (λ g. is_known g s) told ∙ Mem→known ss s m),
        told,
        refl,
      )
    ]
