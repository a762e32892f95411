-- ===== src/Vital/Heart/Endurance.antt =====
-- Every beat ends and leaves a sound life, while the dictionary is layered.
use operating_organism.Vital.Synapses.Lives as Lives
use operating_organism.Vital.Epigenetics.Life as Memory
use operating_organism.Vital.Forth.Layers as Forth
use operating_organism.Vital.Dreams.Night.{night-IsSound}
use operating_organism.Prelude.{
  ltb, leb, ◌==◌, Bool-cases, Option-cases, u8, ℕ, ◌+◌, ◌-◌, ◌*◌, ◌%◌, ◌≤◌, ◌<◌, ◌≡◌, refl, ◌⊎◌,
  inl, inr, ◌&&◌, none, some, [], ◌∷◌, arith,
}
use operating_organism.Prelude.Int.{ℤ, pos, negsuc}
use operating_organism.Vital.Spark.{Spark}
use operating_organism.Vital.Nociception.{acute, searing}
use operating_organism.Vital.Synapses.{propagate, hebbian_learning}
use operating_organism.Vital.Dreams.{night}
use operating_organism.Vital.Forth.{max_words, Dictionary, learn_word}
use operating_organism.Vital.Heart.{
  Life, node_consciousness, node_entropy, node_dream, node_guardian, excite, mark, with_bus, hurts,
}
use operating_organism.Vital.Heart.Layers.{Senses, think, guard, biotic_noise, stir, dream}
use operating_organism.Vital.Heart.Beat.{
  glow, oscillate, broadcast, verify_self, influence, machine, metabolise, study, listen, noon,
  unfinished, alive, heartbeat,
}
use operating_organism.Vital.Heart.Soundness.{
  IsSound, spark-IsSound, excite-IsSound, with_mind-IsSound, with_bus-IsSound, hurts-IsSound,
  if-IsSound, morning_lem,
}
use operating_organism.Bus.{Globule, is_red, absorb}

think-IsSound : (l : Life) → IsSound l → IsSound (think l)
unfolding think
think-IsSound l v = excite-IsSound _ node_consciousness _ (with_mind-IsSound l _ v)

guard-IsSound : (l : Life) (s : Senses) → IsSound l → IsSound (guard l s)
unfolding guard
guard-IsSound l s v =
    let warned = excite l node_guardian (pos (s.guardian * 50)) in
    let w = excite-IsSound l node_guardian (pos (s.guardian * 50)) v in
    if-IsSound (leb 1 s.guardian) _ l
      (if-IsSound (s.guardian == 2) _ warned (hurts-IsSound warned 4 searing 0xBAD00002 w) w) v

biotic_noise-IsSound : (l : Life) (entropy : ℕ) → IsSound l → IsSound (biotic_noise l entropy)
unfolding biotic_noise
biotic_noise-IsSound l entropy v =
    let w = if-IsSound (ltb 200 (entropy % 256)) (with_bus l _) l (with_bus-IsSound l _ v) v in
    if-IsSound (ltb _ _) _ _
      (record {
        byte = w.byte;
        stack = w.stack;
        budgets = w.budgets;
        network = w.network;
        memory = w.memory;
        words = w.words;
        few_words = w.few_words;
        board = w.board;
      })
      w

stir-IsSound : (l : Life) (s : Senses) → IsSound l → IsSound (stir l s)
unfolding stir
stir-IsSound l s v =
    excite-IsSound (biotic_noise l s.entropy) node_entropy _ (biotic_noise-IsSound l s.entropy v)

dream-IsSound : (l : Life) → IsSound l → IsSound (dream l)
unfolding dream
dream-IsSound l v =
    let (rng, epigenome, d) = night l.rng l.epigenome l.spark.pulse_count in
    let w : IsSound (record l { rng = rng; epigenome = epigenome }) = record {
      byte = v.byte;
      stack = v.stack;
      budgets = v.budgets;
      network = v.network;
      memory = night-IsSound l.rng l.epigenome l.spark.pulse_count v.memory;
      words = v.words;
      few_words = v.few_words;
      board = v.board;
    } in
    if-IsSound _ _ l
      (excite-IsSound (record l { rng = rng; epigenome = epigenome }) node_dream
        (pos d.survival_rate) w)
      v

learn-IsSound :
    (l : Life)
    → IsSound l
    → IsSound (record l { synapses = hebbian_learning (propagate l.synapses) })
learn-IsSound l v = record {
  byte = v.byte;
  stack = v.stack;
  budgets = v.budgets;
  network =
      Lives.learning-IsSound (propagate l.synapses) (Lives.propagate-IsSound l.synapses v.network);
  memory = v.memory;
  words = v.words;
  few_words = v.few_words;
  board = v.board;
}

glow-IsSound : (l : Life) → IsSound l → IsSound (glow l)
unfolding glow
glow-IsSound l v = record {
  byte = v.byte;
  stack = v.stack;
  budgets = v.budgets;
  network = v.network;
  memory = v.memory;
  words = v.words;
  few_words = v.few_words;
  board = v.board;
}

oscillate_small : (s : Spark) (p : ℕ) → s.tension < 256 → p < 256 → (oscillate s p).tension < 256
unfolding oscillate
oscillate_small s p h k = ground (arith, h, k)

broadcast-IsSound : (l : Life) → IsSound l → IsSound (broadcast l)
unfolding broadcast
broadcast-IsSound l v = if-IsSound _ (with_bus l _) l (with_bus-IsSound l _ v) v

mark-IsSound : (l : Life) (impact : ℤ) → IsSound l → IsSound (mark l impact)
mark-IsSound l impact v = record {
  byte = v.byte;
  stack = v.stack;
  budgets = v.budgets;
  network = v.network;
  memory = Memory.mark-IsSound l.epigenome l.spark.pulse_count impact v.memory;
  words = v.words;
  few_words = v.few_words;
  board = v.board;
}

verify_self-IsSound : (l : Life) (s : Senses) → IsSound l → IsSound (verify_self l s)
unfolding verify_self
verify_self-IsSound l s v = if-IsSound _ l _ v (
    if-IsSound s.is_verified l _ v
      (mark-IsSound (hurts l 4 acute 0xBAD516) (negsuc 9) (hurts-IsSound l 4 acute 0xBAD516 v)))

influence_small : (s : Spark) (p : ℕ) → s.tension < 256 → (influence s p).tension < 256
unfolding influence
influence_small s p h = ground (arith, h)

noon-IsSound : (l : Life) (s : Senses) → IsSound l → IsSound (noon l s)
unfolding noon
noon-IsSound l s v =
    let l₁ = dream (stir (guard (think l) s) s) in
    let v₁ =
      dream-IsSound _
        (stir-IsSound (guard (think l) s) s (guard-IsSound (think l) s (think-IsSound l v))) in
    let l₂ = glow (record l₁ { synapses = hebbian_learning (propagate l₁.synapses) }) in
    let v₂ = glow-IsSound _ (learn-IsSound l₁ v₁) in
    let p = l₂.epigenome.personality_bias in
    let l₃ = record l₂ { spark = oscillate l₂.spark p } in
    let v₃ =
      spark-IsSound l₂ (oscillate l₂.spark p) v₂
        (oscillate_small l₂.spark p v₂.byte (omega (arith, v₂.memory.bias_high))) in
    let l₄ = verify_self (broadcast l₃) s in
    let v₄ = verify_self-IsSound (broadcast l₃) s (broadcast-IsSound l₃ v₃) in
    spark-IsSound l₄ (influence l₄.spark l₄.epigenome.personality_bias) v₄
      (influence_small l₄.spark l₄.epigenome.personality_bias v₄.byte)

-- What the layer of the Forth leaves, at every depth above 128.
metabolise_lem :
    (l : Life)
    → IsSound l
    → (l' : Life) × IsSound l' × ((depth : ℕ) → max_words < depth → metabolise depth l ≡ some l')
unfolding metabolise
metabolise_lem l v =
    let (m, sound, ends) =
      Forth.metabolic_tick_lem l.dictionary (machine l) v.words
        (record { bounded = v.stack; byte = v.byte }) in
    (
      record l { stack = m.stack; spark = m.spark; aura = m.aura },
      record {
        byte = sound.byte;
        stack = sound.bounded;
        budgets = v.budgets;
        network = v.network;
        memory = v.memory;
        words = v.words;
        few_words = v.few_words;
        board = v.board;
      },
      λ depth deep. rw (metabolise, ends depth (omega (arith, deep, v.few_words))) refl,
    )

taught-IsSound :
    (l : Life) (d : Dictionary)
    → IsSound l
    → d.word_count ≤ max_words
    → Forth.IsLayered d
    → IsSound (record l { dictionary = d })
taught-IsSound l d v few layered = record {
  byte = v.byte;
  stack = v.stack;
  budgets = v.budgets;
  network = v.network;
  memory = v.memory;
  words = layered;
  few_words = few;
  board = v.board;
}

learn_word_few :
    (d : Dictionary) (name : ℕ) (code : ℕ → ℕ) (len : ℕ)
    → d.word_count ≤ max_words
    → (learn_word d name code len).word_count ≤ max_words
unfolding learn_word
learn_word_few d name code len few = ground (arith, few)

-- A lesson leaves a sound life, if the words are still layered.
study-IsSound :
    (l : Life) (s : Senses) (g : Globule)
    → IsSound l
    → Forth.IsLayered (study l s g).dictionary
    → IsSound (study l s g)
unfolding study
study-IsSound l s g v =
    elim (Bool-cases (g.source_organ == 0 && is_red g.type && leb 2 g.payload_size)) [
      | inl lesson ↦
          rw (study, lesson)
            (λ layered.
              taught-IsSound l _ v
                (learn_word_few l.dictionary (s.memory g.payload_addr)
                  (λ j. s.memory (g.payload_addr + 1 + j)) (u8 (g.payload_size - 1)) v.few_words)
                layered)
      | inr other ↦ rw (study, other) (λ layered. v)
    ]

-- How the listening ends.
Listened : ℕ → Life → Senses → Type 0
Listened rounds l s =
    ((l' : Life) × (listen rounds l s ≡ some l') × (Forth.IsLayered l'.dictionary → IsSound l'))
    ⊎ ((absorb rounds l.metabolism.nerves.mind.bus 15 1 ≡ none) × (listen rounds l s ≡ none))

listen_ends : (rounds : ℕ) (l : Life) (s : Senses) → IsSound l → Listened rounds l s
unfolding Listened listen
listen_ends rounds l s v = elim (Bool-cases (l.spark.pulse_count % 50 == 0)) [
  | inr busy ↦ inl (l, rw (listen, busy) refl, λ layered. v)
  | inl free ↦ elim (Option-cases (absorb rounds l.metabolism.nerves.mind.bus 15 1)) [
    | inl lost ↦ inr (lost, rw (listen, free, lost) refl)
    | inr ((bus, []), heard) ↦
        inl (with_bus l bus, rw (listen, free, heard) refl, λ layered. with_bus-IsSound l bus v)
    | inr ((bus, g ∷ gs), heard) ↦ inl (
      study (with_bus l bus) s g,
      rw (listen, free, heard) refl,
      study-IsSound (with_bus l bus) s g (with_bus-IsSound l bus v),
    )
  ]
]

-- A beat of a sound life, with a depth above 128 for the Forth, is alive after it, and what it leaves
-- is sound if the words that it has been taught are layered; or it listens, at its end and in a
-- sound state, to a bus that runs out of rounds. It never comes to the panic.
pub heartbeat_lem :
    (depth rounds : ℕ) (l : Life) (s : Senses)
    → IsSound l
    → max_words < depth
    → ((l' : Life) × (heartbeat depth rounds l s ≡ alive l')
        × (Forth.IsLayered l'.dictionary → IsSound l'))
      ⊎ ((l' : Life) × IsSound l'
          × (absorb rounds l'.metabolism.nerves.mind.bus 15 1 ≡ none)
          × (heartbeat depth rounds l s ≡ unfinished))
unfolding heartbeat Listened
heartbeat_lem depth rounds l s v deep =
    let (l₁, v₁, e₁) = morning_lem l s v in
    let (l₂, v₂, e₂) = metabolise_lem (noon l₁ s) (noon-IsSound l₁ s v₁) in
    elim (listen_ends rounds l₂ s v₂) [
      | inl (l₃, e₃, v₃) ↦ inl (l₃, rw (heartbeat, e₁, e₂ depth deep, e₃) refl, v₃)
      | inr (lost, e₃) ↦ inr (l₂, v₂, lost, rw (heartbeat, e₁, e₂ depth deep, e₃) refl)
    ]
