-- ===== src/Vital/Heart/Beat.antt =====
-- The layers of `vital_eternal_heartbeat` (vital-baremetal/src/life_loop.c) from the network on, and
-- the whole beat.
use operating_organism.Prelude.{
  ltb, leb, ◌==◌, if◌then◌else◌, u8, ℕ, ◌+◌, ◌-◌, ◌%◌, Bool, ◌&&◌, Option, none, some, [], ◌∷◌,
}
use operating_organism.Prelude.Int.{pos, negsuc, ltb_ℤ}
use operating_organism.Vital.Regulator.{yin, yang}
use operating_organism.Vital.Spark.{Spark, update_aura, emit_distress_beacon}
use operating_organism.Vital.Nociception.{acute}
use operating_organism.Vital.Synapses.{propagate, hebbian_learning, get_activation}
use operating_organism.Vital.Forth.{learn_word, Machine, metabolic_tick}
use operating_organism.Vital.Heart.{Life, node_aura, mark, with_bus, hurts}
use operating_organism.Vital.Heart.Layers.{
  Senses, steel_tick, circadian, feel, feed, balance, think, guard, stir, dream,
}
use operating_organism.Bus.{GlobuleType, Globule, is_red, pump, absorb, signal}

-- Layer 10, the aura.
unfoldable pub glow : Life → Life
glow l =
    let aura = update_aura l.aura l.spark.tension l.spark.current_force in
    record l {
      aura =
          if ltb_ℤ (pos 100) (get_activation l.synapses node_aura)
          then emit_distress_beacon aura
          else aura;
    }

-- Layer 11, on the spark: a step towards the personality, and the force that leads.
unfoldable pub oscillate : Spark → ℕ → Spark
oscillate s personality =
    let tension =
      if ltb s.tension personality
      then s.tension + 1
      else (if ltb personality s.tension then s.tension - 1 else s.tension) in
    record s {
      tension = tension;
      current_force =
          if ltb 160 tension then yin else if ltb tension 96 then yang else s.current_force;
    }

-- Layer 12, the hormone of every 100th beat; the payload is the address, here 0, of 4 bytes.
unfoldable pub broadcast : Life → Life
broadcast l =
    if l.spark.pulse_count % 100 == 0
    then with_bus l (pump l.metabolism.nerves.mind.bus (signal GlobuleType.yellow 15 4)).0
    else l

-- The signature: on every 10000th beat it is renewed, on the others verified.
unfoldable pub verify_self : Life → Senses → Life
verify_self l s =
    if l.spark.pulse_count % 10000 == 0
    then l
    else if s.is_verified
    then l
    else mark (hurts l 4 acute 0xBAD516) (negsuc 9)

-- The influence of the personality on the tension: two tests in turn.
unfoldable pub influence : Spark → ℕ → Spark
influence s bias =
    let s₁ = if ltb bias 100 && ltb 50 s.tension then record s { tension = s.tension - 1 } else s in
    if ltb 150 bias && ltb s₁.tension 200 then record s₁ { tension = s₁.tension + 1 } else s₁

-- The machine that the Forth acts on.
abbrev pub machine : Life → Machine
machine l = record {
  stack = l.stack;
  spark = l.spark;
  aura = l.aura;
  pain = l.metabolism.nerves.global_pain;
}

unfoldable pub metabolise : ℕ → Life → Option Life
metabolise fuel l = elim (metabolic_tick fuel l.dictionary (machine l)) [
  | none ↦ none
  | some m ↦ some (record l { stack = m.stack; spark = m.spark; aura = m.aura })
]

-- What a globule teaches: the first byte of its payload is the name, the others are the code.
unfoldable pub study : Life → Senses → Globule → Life
study l s g =
    if g.source_organ == 0 && is_red g.type && leb 2 g.payload_size
    then record l {
      dictionary =
          learn_word l.dictionary (s.memory g.payload_addr) (λ j. s.memory (g.payload_addr + 1 + j))
            (u8 (g.payload_size - 1));
    }
    else l

-- The last layer, on every 50th beat.
unfoldable pub listen : ℕ → Life → Senses → Option Life
listen fuel l s =
    if l.spark.pulse_count % 50 == 0
    then (elim (absorb fuel l.metabolism.nerves.mind.bus 15 1) [
      | none ↦ none
      | some (bus, []) ↦ some (with_bus l bus)
      | some (bus, g ∷ gs) ↦ some (study (with_bus l bus) s g)
    ])
    else some l

-- The layers before the panic, and whether it comes to it.
unfoldable pub morning : Life → Senses → Life × Bool
morning l s = balance (feed (feel (circadian (steel_tick l s) s))) s

-- The layers from the consciousness to the personality's influence.
unfoldable pub noon : Life → Senses → Life
noon l s =
    let l₁ = dream (stir (guard (think l) s) s) in
    let l₂ = glow (record l₁ { synapses = hebbian_learning (propagate l₁.synapses) }) in
    let l₃ = record l₂ { spark = oscillate l₂.spark l₂.epigenome.personality_bias } in
    let l₄ = verify_self (broadcast l₃) s in
    record l₄ { spark = influence l₄.spark l₄.epigenome.personality_bias }

-- How a beat ends: its rounds ran out, the panic took over, or life goes on.
pub data Ending : Type 0 where
  unfinished panicked : Ending
  alive : Life → Ending

-- `vital_eternal_heartbeat`, with `depth` for the Forth and `rounds` for the bus.
unfoldable pub heartbeat : ℕ → ℕ → Life → Senses → Ending
heartbeat depth rounds l s =
    let (l₁, panics) = morning l s in
    if panics then panicked else (elim (metabolise depth (noon l₁ s)) [
      | none ↦ unfinished
      | some l₂ ↦ elim (listen rounds l₂ s) [ none ↦ unfinished | some l₃ ↦ alive l₃ ]
    ])
