-- ===== src/Periphery/Reflex/Counts.antt =====
-- What the interrupts count, and what they send into the bus.
use operating_organism.Prelude.{
  ◌==◌, if◌then◌else◌, Bool-cases, u32, All, select, ℕ, ◌+◌, ◌^◌, ◌<◌, ◌≡◌, refl, ap, ◌∙◌, inl, inr,
  Bool, ◌||◌, none, some, List, [], ◌∷◌, arith,
}
use operating_organism.Bus.{GlobuleType, Globule, Bus, pump, signal, broadcast_white}
use operating_organism.Periphery.Reflex.{
  reflex_pain, reflex_watchdog, reflex_thermal, organ_reflex, Action, on_pain, on_thermal_burn,
  SpinalCord, perform, trigger,
}
use operating_organism.Periphery.Reflex as Reflex

-- Interrupts in the order in which they come.
unfoldable pub interrupts : SpinalCord → List ℕ → SpinalCord
interrupts c [] = c
interrupts c (v ∷ vs) = interrupts (trigger c v) vs

-- Whether a vector is bound at the birth, and how many of a list are, and how many are for pain.
abbrev is_armed : ℕ → Bool
is_armed v = v == reflex_pain || (v == reflex_watchdog || v == reflex_thermal)

abbrev armed : ℕ → ℕ
armed v = if is_armed v then 1 else 0

abbrev pained : ℕ → ℕ
pained v = if v == reflex_pain then 1 else 0

unfoldable tally : (ℕ → ℕ) → List ℕ → ℕ
tally f [] = 0
tally f (v ∷ vs) = f v + tally f vs

unfoldable pub armed_among : List ℕ → ℕ
unfolding tally
armed_among vs = tally armed vs

unfoldable pub pained_among : List ℕ → ℕ
unfolding tally
pained_among vs = tally pained vs

-- The table as the birth leaves it, and counters that fit their types.
record IsArmed (c : SpinalCord) : Type 0 where
  at_pain : c.reflex_table reflex_pain ≡ some on_pain
  at_watchdog : c.reflex_table reflex_watchdog ≡ some on_thermal_burn
  at_thermal : c.reflex_table reflex_thermal ≡ some on_thermal_burn
  elsewhere : (v : ℕ) → v < 256 → armed v ≡ 0 → c.reflex_table v ≡ none
  counted : c.triggered_count < 2 ^ 32
  pumped_before : c.bus.total_pumps < 2 ^ 32

pump-tally : (b : Bus) (g : Globule) → (pump b g).0.total_pumps ≡ u32 (b.total_pumps + 1)
unfolding pump
pump-tally b g = ground arith

-- What one interrupt does, by the action at its vector.
trigger_free : (c : SpinalCord) (v : ℕ) → c.reflex_table v ≡ none → trigger c v ≡ c
unfolding trigger
trigger_free c v free = rw (trigger, free) refl

trigger_bound :
    (c : SpinalCord) (v : ℕ) (act : Action)
    → c.reflex_table v ≡ some act
    → trigger c v
      ≡ perform (record c { last_vector = v; triggered_count = u32 (c.triggered_count + 1) }) act
unfolding trigger
trigger_bound c v act bound = rw (trigger, bound) refl

-- The effect of an interrupt, with the state after it as a variable.
abbrev Effect : SpinalCord → ℕ → SpinalCord → Type 0
Effect c v c' =
    IsArmed c'
    × (c'.triggered_count ≡ u32 (c.triggered_count + armed v))
    × (c'.bus.total_pumps ≡ u32 (c.bus.total_pumps + armed v))
    × (c'.halts ≡ c.halts + pained v)

burned :
    (c : SpinalCord) (v : ℕ)
    → IsArmed c
    → armed v ≡ 1
    → pained v ≡ 0
    → c.reflex_table v ≡ some on_thermal_burn
    → Effect c v (trigger c v)
burned c v a one none_ bound =
    let n = pump-tally c.bus (signal GlobuleType.yellow organ_reflex reflex_thermal) in
    rw (trigger_bound c v on_thermal_burn bound) (
      record {
        at_pain = a.at_pain;
        at_watchdog = a.at_watchdog;
        at_thermal = a.at_thermal;
        elsewhere = a.elsewhere;
        counted = omega arith;
        pumped_before = omega (arith, n);
      },
      rw one refl,
      n ∙ rw one refl,
      omega (arith, none_),
    )

struck : (c : SpinalCord) (v : ℕ) → IsArmed c → v ≡ reflex_pain → Effect c v (trigger c v)
unfolding broadcast_white
struck c v a e =
    let n = pump-tally c.bus (signal GlobuleType.white organ_reflex 1) in
    rw (trigger_bound c v on_pain (ap c.reflex_table e ∙ a.at_pain)) (
      record {
        at_pain = a.at_pain;
        at_watchdog = a.at_watchdog;
        at_thermal = a.at_thermal;
        elsewhere = a.elsewhere;
        counted = omega arith;
        pumped_before = omega (arith, n);
      },
      rw e refl,
      n ∙ rw e refl,
      rw e refl,
    )

triggered : (c : SpinalCord) (v : ℕ) → v < 256 → IsArmed c → Effect c v (trigger c v)
triggered c v l a = elim (Bool-cases (v == reflex_pain)) [
  | inl p ↦ struck c v a (ground (arith, p))
  | inr p ↦ elim (Bool-cases (v == reflex_watchdog)) [
    | inl w ↦
        burned c v a (ground (arith, p, w)) (ground (arith, p))
          (ap c.reflex_table (ground (arith, w)) ∙ a.at_watchdog)
    | inr w ↦ elim (Bool-cases (v == reflex_thermal)) [
      | inl t ↦
          burned c v a (ground (arith, p, w, t)) (ground (arith, p))
            (ap c.reflex_table (ground (arith, t)) ∙ a.at_thermal)
      | inr t ↦
          let free : armed v ≡ 0 = ground (arith, p, w, t) in
          let counted = a.counted in
          let pumped_before = a.pumped_before in
          rw (trigger_free c v (a.elsewhere v l free))
            (a, omega (arith, free, counted), omega (arith, free, pumped_before), ground (arith, p))
    ]
  ]
]

counts :
    (c : SpinalCord) (vs : List ℕ)
    → All (λ v. v < 256) vs
    → IsArmed c
    → let c' = interrupts c vs in
      (c'.triggered_count ≡ u32 (c.triggered_count + armed_among vs))
      × (c'.bus.total_pumps ≡ u32 (c.bus.total_pumps + armed_among vs))
      × (c'.halts ≡ c.halts + pained_among vs)
unfolding interrupts armed_among pained_among tally
counts c [] ls a =
    let counted = a.counted in
    let pumped_before = a.pumped_before in
    (omega (arith, counted), omega (arith, pumped_before), omega arith)
counts c (v ∷ vs) (l, ls) a =
    let (a', t, p, h) = triggered c v l a in
    let (t', p', h') = counts (trigger c v) vs ls a' in
    (omega (arith, t, t'), omega (arith, p, p'), omega (arith, h, h'))

init-IsArmed :
    (c : SpinalCord)
    → c.triggered_count < 2 ^ 32
    → c.bus.total_pumps < 2 ^ 32
    → IsArmed (Reflex.init c)
unfolding Reflex.init
init-IsArmed c l m = record {
  at_pain = refl;
  at_watchdog = refl;
  at_thermal = refl;
  elsewhere = λ v small free. ground (arith, small, free);
  counted = l;
  pumped_before = m;
}

init-same :
    (c : SpinalCord)
    → ((Reflex.init c).triggered_count ≡ c.triggered_count)
      × ((Reflex.init c).bus ≡ c.bus)
      × ((Reflex.init c).halts ≡ c.halts)
unfolding Reflex.init
init-same c = (refl, refl, refl)

-- An interrupt whose vector is not bound leaves everything as it is, so the armed ones do it all.
only_armed :
    (c : SpinalCord) (vs : List ℕ)
    → All (λ v. v < 256) vs
    → IsArmed c
    → interrupts c vs ≡ interrupts c (select is_armed vs)
unfolding interrupts
only_armed c [] ls a = refl
only_armed c (v ∷ vs) (l, ls) a = elim (Bool-cases (is_armed v)) [
  | inl bound ↦ rw bound (only_armed (trigger c v) vs ls (triggered c v l a).0)
  | inr free ↦
      let still = trigger_free c v (a.elsewhere v l (ground (arith, free))) in
      rw (free, still) (only_armed c vs ls a)
]

-- After the birth, whatever interrupts come and in whatever order: the count of the triggered
-- reflexes grows by the number of interrupts at the three vectors that are bound, just as many
-- globules are pumped into the bus, and the processor is halted once for each interrupt at the
-- vector of pain. The counts are modulo 2^32. Interrupts at other vectors do nothing: without them
-- the whole state is the same.
pub interrupts_lem :
    (c : SpinalCord) (vs : List ℕ)
    → c.triggered_count < 2 ^ 32
    → c.bus.total_pumps < 2 ^ 32
    → All (λ v. v < 256) vs
    → let c' = interrupts (Reflex.init c) vs in
      (c'.triggered_count ≡ u32 (c.triggered_count + armed_among vs))
      × (c'.bus.total_pumps ≡ u32 (c.bus.total_pumps + armed_among vs))
      × (c'.halts ≡ c.halts + pained_among vs)
      × (c' ≡ interrupts (Reflex.init c) (select is_armed vs))
interrupts_lem c vs l m ls =
    let armed_now = init-IsArmed c l m in
    let (t, p, h) = counts (Reflex.init c) vs ls armed_now in
    let (same_count, same_bus, same_halts) = init-same c in
    (
      t ∙ ap (λ n. u32 (n + armed_among vs)) same_count,
      p ∙ ap (λ (b : Bus). u32 (b.total_pumps + armed_among vs)) same_bus,
      h ∙ ap (λ n. n + pained_among vs) same_halts,
      only_armed (Reflex.init c) vs ls armed_now,
    )
