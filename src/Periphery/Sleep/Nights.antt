-- ===== src/Periphery/Sleep/Nights.antt =====
-- When the organism sleeps, and how often it learns in its sleep.
use operating_organism.Prelude.{
  ◌==◌, if◌then◌else◌, not, Bool-cases, set, get_or, take, drop, u8, select, get_or-set_self, ℕ,
  zero, suc, ◌+◌, ◌≡◌, refl, ap, ◌∙◌, inl, inr, Bool, ◌&&◌, some, List, [], ◌∷◌, map, arith,
}
use operating_organism.Bus.{Globule, Bus, next_index, is_for, absorb}
use operating_organism.Periphery.Sleep.{
  dream_organ, inbox_size, Sleeper, is_yellow, hear_state, hear_inbox, dream_round,
}
use operating_organism.Bus.Absorb.{InRing, gap, window, pending, absorb_lem}
use operating_organism.Bus.Invariant.{IsValid}

-- The states that the yellow globules of an inbox point at.
abbrev pub states : (ℕ → ℕ) → List Globule → List ℕ
states memory inbox = map (λ g. u8 (memory g.payload_addr)) (select is_yellow inbox)

-- The state before a list of states begins is relaxed or not; so is the last one.
unfoldable pub asleep_after : Bool → List ℕ → Bool
asleep_after before [] = before
asleep_after before (s ∷ ss) = asleep_after (s == 0) ss

-- How often a list of states goes over from a state of activity into the relaxed one.
unfoldable pub evenings : Bool → List ℕ → ℕ
evenings before [] = 0
evenings before (s ∷ ss) = (if s == 0 && not before then 1 else 0) + evenings (s == 0) ss

heard :
    (d : Sleeper) (s : ℕ)
    → ((hear_state d s).is_sleeping ≡ (s == 0))
      × ((hear_state d s).learnings ≡ d.learnings + (if s == 0 && not d.is_sleeping then 1 else 0))
unfolding hear_state
heard d s = ground arith

hear_inbox_lem :
    (memory : ℕ → ℕ) (d : Sleeper) (inbox : List Globule)
    → let ss = states memory inbox in
      let d' = hear_inbox memory d inbox in
      (d'.is_sleeping ≡ asleep_after d.is_sleeping ss)
      × (d'.learnings ≡ d.learnings + evenings d.is_sleeping ss)
unfolding hear_inbox asleep_after evenings
hear_inbox_lem memory d [] = (refl, omega arith)
hear_inbox_lem memory d (g ∷ inbox) = elim (Bool-cases (is_yellow g)) [
  | inl listened ↦
      let s = u8 (memory g.payload_addr) in
      let (asleep, learned) = hear_inbox_lem memory (hear_state d s) inbox in
      let (now, counted) = heard d s in
      rw (hear_inbox, listened)
        (
          asleep ∙ ap (λ x. asleep_after x (states memory inbox)) now,
          learned
              ∙ ap (λ x. (hear_state d s).learnings + evenings x (states memory inbox)) now
              ∙ omega (arith, counted),
        )
  | inr other ↦ rw (hear_inbox, other) (hear_inbox_lem memory d inbox)
]

-- What is still to come does not depend on where the other organs read.
window_heads :
    (b : Bus) (hs : List ℕ) (h n : ℕ)
    → window (record b { organ_read_heads = hs }) h n ≡ window b h n
window_heads b hs h zero = refl
window_heads b hs h (suc n) =
    ap (λ xs. b.blood_stream h ∷ xs) (window_heads b hs (next_index b h) n)

absorbed_round :
    (fuel : ℕ) (memory : ℕ → ℕ) (b b' : Bus) (d : Sleeper) (inbox : List Globule)
    → absorb fuel b dream_organ inbox_size ≡ some (b', inbox)
    → dream_round fuel memory b d ≡ some (b', hear_inbox memory d inbox)
unfolding dream_round
absorbed_round fuel memory b b' d inbox e = rw (dream_round, e) refl

-- On a valid bus that is sized beyond its write position and beyond the dream organ's read
-- position, a round of the dream organ ends, within as many steps as the ring has places. It
-- hears the first ten globules that are for the organ, and leaves the others: of the yellow ones
-- among the ten the last decides whether the organism sleeps, an inbox without one changes
-- nothing, and the learning is triggered once for every time that it falls asleep.
pub dream_round_lem :
    (memory : ℕ → ℕ) (b : Bus) (d : Sleeper)
    → IsValid b
    → InRing b b.heart_systole
    → InRing b (get_or b.organ_read_heads dream_organ 0)
    → let queue = pending b dream_organ (get_or b.organ_read_heads dream_organ 0) in
      let ss = states memory (take inbox_size queue) in
      (b' : Bus) × (d' : Sleeper) × (dream_round (suc b.current_capacity) memory b d
        ≡ some (b', d'))
      × (d'.is_sleeping ≡ asleep_after d.is_sleeping ss)
      × (d'.learnings ≡ d.learnings + evenings d.is_sleeping ss)
      × (pending b' dream_organ (get_or b'.organ_read_heads dream_organ 0) ≡ drop inbox_size queue)
dream_round_lem memory b d v s r =
    let inbox = take inbox_size (pending b dream_organ (get_or b.organ_read_heads dream_organ 0)) in
    let (h', absorbed, r', left) = absorb_lem b dream_organ inbox_size v s (omega arith) r in
    let b' = record b { organ_read_heads = set b.organ_read_heads dream_organ h' } in
    let (asleep, learned) = hear_inbox_lem memory d inbox in
    let heads = v.heads_count in
    let reads : get_or b'.organ_read_heads dream_organ 0 ≡ h' =
      get_or-set_self b.organ_read_heads dream_organ h' 0 (omega (arith, heads)) in
    (
      b',
      hear_inbox memory d inbox,
      absorbed_round (suc b.current_capacity) memory b b' d inbox absorbed,
      asleep,
      learned,
      ap (pending b' dream_organ) reads
          ∙ ap (select (is_for dream_organ)) (window_heads b b'.organ_read_heads h' (gap b h'))
          ∙ left,
    )
