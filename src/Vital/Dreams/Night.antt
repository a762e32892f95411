-- ===== src/Vital/Dreams/Night.antt =====
-- What a dream can bring, and what a night leaves in the memory.
use operating_organism.Prelude.{
  ltb, ◌==◌, if◌then◌else◌, Bool-cases, u32, ℕ, zero, suc, ◌+◌, ◌-◌, ◌%◌, ◌≤◌, ◌<◌, ◌≡◌, inl, inr,
}
use operating_organism.Prelude.Int.{pos, negsuc}
use operating_organism.Vital.Epigenetics.{Epigenome}
use operating_organism.Vital.Epigenetics.Life.{IsSound, mark-IsSound}
use operating_organism.Vital.Dreams.{simulate, select_scenario, learn, apply_lessons, night}

-- What the lessons left do: they are all successes or all traumas, by the rate.
record Learnt (left rate : ℕ) (m m' : Epigenome) : Type 0 where
  total : m'.total_experiences ≡ (m.total_experiences + left) % 4294967296
  kept :
      70 < rate
      → (m.personality_bias ≤ m'.personality_bias)
        × (m'.trauma_level ≡ m.trauma_level)
        × (m'.success_count ≡ u32 (m.success_count + left))
  lost :
      rate ≤ 70
      → (m'.personality_bias ≤ m.personality_bias)
        × (1 ≤ left → 5 < m.personality_bias → m'.personality_bias < m.personality_bias)
        × (m'.success_count ≡ m.success_count)
        × (m'.trauma_level ≡ u32 (m.trauma_level + left))

learn-IsSound :
    (left : ℕ) (m : Epigenome) (pulse rate : ℕ) → IsSound m → IsSound (learn left m pulse rate)
unfolding learn
learn-IsSound zero m pulse rate v = v
learn-IsSound (suc left) m pulse rate v =
    learn-IsSound left _ pulse rate
      (mark-IsSound m pulse (if ltb 70 rate then pos 1 else negsuc 0) v)

pub night-IsSound :
    (rng : ℕ) (m : Epigenome) (pulse : ℕ) → IsSound m → IsSound (night rng m pulse).1
unfolding night apply_lessons
night-IsSound rng m pulse v =
    let d = (simulate rng m.personality_bias (select_scenario (255 - m.personality_bias))).1 in
    elim (Bool-cases (d.lessons_learned == 0)) [
      | inl nothing ↦ rw nothing v
      | inr something ↦ rw something (learn-IsSound d.lessons_learned m pulse d.survival_rate v)
    ]
