-- ===== src/Vital/Nociception/Damping.antt =====
-- What agony does to the mind, and how pain fades.
use operating_organism.Vital.Nociception as Nociception
use operating_organism.Prelude.{
  ltb, leb, if◌then◌else◌, get_or, u8, u16, u32, ℕ, zero, suc, ◌+◌, ◌^◌, ◌≤◌, ◌<◌, min, ◌≡◌, refl,
  Bool, true, false, ◌∷◌, arith,
}
use operating_organism.Vital.Nociception.{
  agony_felt, Nociceptor, max_nociceptors, Nerves, felt, inject_endorphin, react_searing,
  react_agony, fire,
}
use operating_organism.Vital.Consciousness.{
  State, void, embryonic, dormant, dreaming, aware, focused, alert, survival, transcend, transition,
}

-- The states that no pain can leave: before birth, and asleep.
abbrev is_out_of_reach : State → Bool
is_out_of_reach void = true
is_out_of_reach embryonic = true
is_out_of_reach dormant = true
is_out_of_reach dreaming = true
is_out_of_reach _ = false

react_state :
    (n : Nerves) (s : State)
    → n.mind.current_state ≡ s
    → (react_agony (react_searing n)).mind.current_state
      ≡ (if is_out_of_reach s then s else survival)
unfolding transition inject_endorphin
react_state n void e = rw e refl
react_state n embryonic e = rw e refl
react_state n dormant e = rw e refl
react_state n dreaming e = rw e refl
react_state n aware e = rw e refl
react_state n focused e = rw e refl
react_state n alert e = rw e refl
react_state n survival e = rw e refl
react_state n transcend e = rw e refl

rise :
    (e : ℕ)
    → e < 256
    → (if ltb 255 (u16 (e + 200)) then 255 else u8 (u16 (e + 200))) ≡ min 255 (e + 200)
rise e k = ground (arith, k)

-- Agony at any receptor brings the mind to SURVIVAL from every state but those before birth and
-- those of sleep, which it leaves as they are. Whichever it is, the endorphins rise by 200, to 255
-- at most, and one mark of -5 is made.
agony_lem :
    (blank : Nociceptor) (n : Nerves) (source code : ℕ)
    → source < max_nociceptors
    → n.endorphin_level < 256
    → let n' = fire blank n source agony_felt code in
      let s = n.mind.current_state in
      (n'.mind.current_state ≡ (if is_out_of_reach s then s else survival))
      × (n'.endorphin_level ≡ min 255 (n.endorphin_level + 200))
      × (n'.marks ≡ 5 ∷ n.marks)
unfolding fire inject_endorphin
agony_lem blank n source code h k =
    let known : leb max_nociceptors source ≡ false = ground (arith, h) in
    let pain = felt agony_felt (get_or n.nociceptors source blank).sensitivity n.endorphin_level in
    rw (fire, known)
      (
        react_state (record n { global_pain = u32 (n.global_pain + pain) }) n.mind.current_state
            refl,
        rise n.endorphin_level k,
        refl,
      )

-- `k` ticks.
pub ticks : ℕ → Nerves → Nerves
ticks zero n = n
ticks (suc k) n = ticks k (Nociception.tick n)

-- Without new signals every pain below 2^24 is gone after as many ticks as it has units.
pain_fades :
    (k : ℕ) (n : Nerves) → n.global_pain ≤ k → n.global_pain < 2 ^ 24 → (ticks k n).global_pain ≡ 0
unfolding ticks Nociception.tick
pain_fades zero n h b = omega arith
pain_fades (suc k) n h b =
    pain_fades k (Nociception.tick n) (ground (arith, h, b)) (ground (arith, h, b))
