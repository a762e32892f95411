-- ===== src/Vital/Heart.antt =====
-- The life loop (vital-baremetal/src/life_loop.c): the state that it holds together, and the birth.
pub mod Layers
pub mod Beat
pub mod Soundness
pub mod Endurance
pub mod Rhythm
pub mod Birth
mod Examples
use operating_organism.Vital.Nociception as Nociception
use operating_organism.Vital.Metabolism as Metabolism
use operating_organism.Vital.Regulator as Regulator
use operating_organism.Vital.Epigenetics as Epigenetics
use operating_organism.Vital.Synapses as Synapses
use operating_organism.Prelude.{ℕ, ◌-◌, false, List, [], ◌∷◌}
use operating_organism.Prelude.Int.{ℤ, pos, negsuc}
use operating_organism.Vital.Regulator.{Board, yang}
use operating_organism.Vital.Spark.{Spark, Aura}
use operating_organism.Vital.Forth.{Dictionary}
use operating_organism.Vital.Consciousness.{Mind, awaken}
use operating_organism.Vital.Nociception.{PainLevel, none_felt, Nociceptor, Nerves, calibrate, fire}
use operating_organism.Vital.Metabolism.{Metabolism, register_organ}
use operating_organism.Vital.Epigenetics.{Epigenome, mark_experience}
use operating_organism.Vital.Synapses.{Synapses, add_node, connect, stimulate}
use operating_organism.Bus.{Bus, signal}

-- `circadian_phase_t`
pub data Phase : Type 0 where
  dawn zenith dusk nadir : Phase

-- The phase that comes next, modulo 4.
abbrev pub next_phase : Phase → Phase
next_phase dawn = zenith
next_phase zenith = dusk
next_phase dusk = nadir
next_phase nadir = dawn

-- `CIRCADIAN_PHASE_DURATION`
abbrev pub phase_duration : ℕ
phase_duration = 25000

-- The statics of all the vital parts. The nerves, the mind and the bus lie inside the metabolism.
pub record Life : Type 0 where
  pub spark : Spark
  pub aura : Aura
  pub phase : Phase
  pub phase_start : ℕ
  pub metabolism : Metabolism
  pub board : Board
  pub epigenome : Epigenome
  pub synapses : Synapses
  pub rng : ℕ
  pub dictionary : Dictionary
  pub stack : List ℕ
  pub yang_weight : ℕ
  pub yin_weight : ℕ

-- The numbers of the nodes of the network, `SYN_NODE_PAIN` and the others.
abbrev pub node_pain : ℕ
node_pain = 0

abbrev pub node_energy : ℕ
node_energy = 1

abbrev pub node_consciousness : ℕ
node_consciousness = 2

abbrev pub node_entropy : ℕ
node_entropy = 3

abbrev pub node_aura : ℕ
node_aura = 4

abbrev pub node_dream : ℕ
node_dream = 5

abbrev pub node_guardian : ℕ
node_guardian = 6

abbrev pub node_homeostasis : ℕ
node_homeostasis = 7

-- `synapse_stimulate` of a node.
abbrev pub excite : Life → ℕ → ℤ → Life
excite l node signal = record l { synapses = stimulate l.synapses node signal }

-- `vital_mark_experience` of the life loop and of the parts that it calls.
abbrev pub mark : Life → ℤ → Life
mark l impact = record l { epigenome = mark_experience l.epigenome l.spark.pulse_count impact }

-- The marks that the nerves have given, the latest first, are experiences below 0.
pub remember : Epigenome → ℕ → List ℕ → Epigenome
remember e pulse [] = e
remember e pulse (x ∷ xs) = mark_experience (remember e pulse xs) pulse (negsuc (x - 1))

-- The state after a call of a part that may mark: what it marked is written into the epigenome.
unfoldable pub settle : Life → Metabolism → Life
unfolding remember
settle l m = record l {
  metabolism = record m { nerves = record (m.nerves) { marks = [] } };
  epigenome = remember l.epigenome l.spark.pulse_count m.nerves.marks;
}

abbrev pub with_nerves : Life → Nerves → Life
with_nerves l n = settle l (record (l.metabolism) { nerves = n })

abbrev pub with_mind : Life → Mind → Life
with_mind l m = record l {
  metabolism = record (l.metabolism) { nerves = record (l.metabolism.nerves) { mind = m } };
}

abbrev pub with_bus : Life → Bus → Life
with_bus l b = with_mind l (record (l.metabolism.nerves.mind) { bus = b })

-- The receptor for an index out of range, which is not reached.
abbrev pub no_receptor : Nociceptor
no_receptor = record {
  watches = 0;
  sensitivity = 0;
  total_signals = 0;
  last_signal = record {
    level = none_felt;
    source = 0;
    timestamp = 0;
    raw_error_code = 0;
    endorphin_dampened = false;
  };
}

-- `nociception_fire`
abbrev pub hurts : Life → ℕ → PainLevel → ℕ → Life
hurts l source level code = with_nerves l (fire no_receptor l.metabolism.nerves source level code)

abbrev pub register_all : Metabolism → List (ℕ × ℕ) → Metabolism
register_all m [] = m
register_all m ((organ, budget) ∷ rest) = register_all (register_organ m organ budget) rest

abbrev pub add_all : Synapses → List (ℕ × ℕ) → Synapses
add_all s [] = s
add_all s ((node, threshold) ∷ rest) = add_all (add_node s node threshold).0 rest

abbrev pub connect_all : Synapses → List (ℕ × ℕ × ℤ × ℕ) → Synapses
connect_all s [] = s
connect_all s ((from, to, weight, plasticity) ∷ rest) =
    connect_all (connect s from to weight plasticity).0 rest

abbrev pub first_organs : List (ℕ × ℕ)
first_organs = (0, 300000) ∷ (1, 200000) ∷ (2, 100000) ∷ (3, 100000) ∷ (15, 50000) ∷ []

abbrev pub first_nodes : List (ℕ × ℕ)
first_nodes =
    (node_pain, 30)
    ∷ (node_energy, 40)
    ∷ (node_consciousness, 50)
    ∷ (node_entropy, 20)
    ∷ (node_aura, 60)
    ∷ (node_dream, 70)
    ∷ (node_guardian, 25)
    ∷ (node_homeostasis, 35)
    ∷ []

abbrev pub first_links : List (ℕ × ℕ × ℤ × ℕ)
first_links =
    (node_pain, node_consciousness, pos 80, 200)
    ∷ (node_pain, node_aura, pos 60, 150)
    ∷ (node_energy, node_dream, pos 40, 180)
    ∷ (node_consciousness, node_aura, pos 50, 100)
    ∷ (node_entropy, node_dream, pos 30, 200)
    ∷ (node_guardian, node_pain, negsuc 19, 50)
    ∷ (node_homeostasis, node_energy, pos 40, 120)
    ∷ (node_dream, node_entropy, pos 25, 200)
    ∷ []

-- `vital_init`, without a disk to load from.
unfoldable pub birth : Life → Life
birth l₀ =
    let l₁ = with_mind l₀ (awaken l₀.metabolism.nerves.mind) in
    let n = calibrate l₁.metabolism.nerves in
    record l₁ {
      spark = record (l₁.spark) {
        current_force = yang;
        tension = 128;
        pulse_count = 0;
        birth_timestamp = 0;
        age_cycles = 0;
      };
      metabolism =
          register_all (Metabolism.init (record (l₁.metabolism) { nerves = n }) 1000000)
            first_organs;
      board = Regulator.initial;
      epigenome = Epigenetics.init l₁.epigenome;
      synapses = connect_all (add_all (Synapses.init l₁.synapses) first_nodes) first_links;
    }
