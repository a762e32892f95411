-- ===== src/Vital/Heart/Soundness.antt =====
-- What every beat keeps, shown of the layers up to the homeostasis.
use operating_organism.Vital.Metabolism as Metabolism
use operating_organism.Vital.Metabolism.Budget as Budget
use operating_organism.Vital.Synapses.Lives as Lives
use operating_organism.Vital.Epigenetics.Life as Memory
use operating_organism.Vital.Regulator as Regulator
use operating_organism.Vital.Forth.Layers.{IsLayered}
use operating_organism.Prelude.{
  ltb, if◌then◌else◌, length, sub_u64, ℕ, ◌-◌, ◌≤◌, ◌<◌, ◌≡◌, refl, ap, ◌∙◌, Bool, true, false,
  List, [], ◌∷◌,
}
use operating_organism.Prelude.Int.{ℤ, pos, negsuc}
use operating_organism.Vital.Regulator.{yin, yang, regulate, is_viable}
use operating_organism.Vital.Spark.{Spark, shift_balance, shift_balance_small}
use operating_organism.Vital.Consciousness.{Mind}
use operating_organism.Vital.Nociception.{PainLevel, Nerves, fire}
use operating_organism.Vital.Metabolism.{Metabolism, is_starving}
use operating_organism.Vital.Epigenetics.{Epigenome}
use operating_organism.Vital.Pineal.{hour_of, sync, align_small}
use operating_organism.Vital.Forth.{stack_size, max_words}
use operating_organism.Vital.Heart.{
  Phase, dawn, zenith, dusk, nadir, next_phase, phase_duration, Life, node_pain, node_energy,
  excite, remember, settle, with_nerves, with_mind, with_bus, no_receptor, hurts,
}
use operating_organism.Vital.Heart.Layers.{
  Senses, steel_tick, enter_phase, circadian, feel, feed, regulated, balance,
}
use operating_organism.Vital.Heart.Beat.{morning}
use operating_organism.Bus.{Globule, Bus, signal}

-- The tension is a byte, the stack of the Forth fits its array, every organ is within its budget, the
-- network within its bounds, the epigenome sealed and within its ranges, the words call only earlier words, and the board stands on its
-- targets.
pub record IsSound (l : Life) : Type 0 where
  pub byte : l.spark.tension < 256
  pub stack : length l.stack ≤ stack_size
  pub budgets : Budget.IsValid l.metabolism
  pub network : Lives.IsSound l.synapses
  pub memory : Memory.IsSound l.epigenome
  pub words : IsLayered l.dictionary
  pub few_words : l.dictionary.word_count ≤ max_words
  pub board : l.board ≡ Regulator.initial

pub spark-IsSound :
    (l : Life) (s : Spark) → IsSound l → s.tension < 256 → IsSound (record l { spark = s })
spark-IsSound l s v h = record {
  byte = h;
  stack = v.stack;
  budgets = v.budgets;
  network = v.network;
  memory = v.memory;
  words = v.words;
  few_words = v.few_words;
  board = v.board;
}

pub excite-IsSound : (l : Life) (node : ℕ) (signal : ℤ) → IsSound l → IsSound (excite l node signal)
excite-IsSound l node signal v = record {
  byte = v.byte;
  stack = v.stack;
  budgets = v.budgets;
  network = Lives.stimulate-IsSound l.synapses node signal v.network;
  memory = v.memory;
  words = v.words;
  few_words = v.few_words;
  board = v.board;
}

nerves-IsValid :
    (m : Metabolism) (n : Nerves) → Budget.IsValid m → Budget.IsValid (record m { nerves = n })
nerves-IsValid m n v = record { few = v.few; budgets = v.budgets; pool = v.pool }

remember-IsSound :
    (e : Epigenome) (pulse : ℕ) (xs : List ℕ)
    → Memory.IsSound e
    → Memory.IsSound (remember e pulse xs)
unfolding remember
remember-IsSound e pulse [] v = v
remember-IsSound e pulse (x ∷ xs) v =
    Memory.mark-IsSound (remember e pulse xs) pulse (negsuc (x - 1)) (remember-IsSound e pulse xs v)

settle-IsSound : (l : Life) (m : Metabolism) → IsSound l → Budget.IsValid m → IsSound (settle l m)
unfolding settle
settle-IsSound l m v h = record {
  byte = v.byte;
  stack = v.stack;
  budgets = nerves-IsValid m (record (m.nerves) { marks = [] }) h;
  network = v.network;
  memory = remember-IsSound l.epigenome l.spark.pulse_count m.nerves.marks v.memory;
  words = v.words;
  few_words = v.few_words;
  board = v.board;
}

with_nerves-IsSound : (l : Life) (n : Nerves) → IsSound l → IsSound (with_nerves l n)
with_nerves-IsSound l n v =
    settle-IsSound l (record (l.metabolism) { nerves = n }) v
      (nerves-IsValid l.metabolism n v.budgets)

pub with_mind-IsSound : (l : Life) (m : Mind) → IsSound l → IsSound (with_mind l m)
with_mind-IsSound l m v = record {
  byte = v.byte;
  stack = v.stack;
  budgets = nerves-IsValid l.metabolism (record (l.metabolism.nerves) { mind = m }) v.budgets;
  network = v.network;
  memory = v.memory;
  words = v.words;
  few_words = v.few_words;
  board = v.board;
}

pub with_bus-IsSound : (l : Life) (b : Bus) → IsSound l → IsSound (with_bus l b)
with_bus-IsSound l b v = with_mind-IsSound l (record (l.metabolism.nerves.mind) { bus = b }) v

pub hurts-IsSound :
    (l : Life) (source : ℕ) (level : PainLevel) (code : ℕ)
    → IsSound l
    → IsSound (hurts l source level code)
hurts-IsSound l source level code v =
    with_nerves-IsSound l (fire no_receptor l.metabolism.nerves source level code) v

pub if-IsSound : (b : Bool) (l m : Life) → IsSound l → IsSound m → IsSound (if b then l else m)
if-IsSound true l m v w = v
if-IsSound false l m v w = w

enter_phase-IsSound : (p : Phase) (l : Life) → IsSound l → IsSound (enter_phase p l)
enter_phase-IsSound dawn l v = spark-IsSound _ _ (with_mind-IsSound l _ v) v.byte
enter_phase-IsSound zenith l v = with_mind-IsSound l _ v
enter_phase-IsSound dusk l v = with_mind-IsSound l _ v
enter_phase-IsSound nadir l v = spark-IsSound _ _ (with_mind-IsSound l _ v) v.byte

circadian-IsSound : (l : Life) (s : Senses) → IsSound l → IsSound (circadian l s)
unfolding circadian sync
circadian-IsSound l s v =
    let started = record l { phase_start = l.spark.pulse_count; phase = next_phase l.phase } in
    let w : IsSound started = record {
      byte = v.byte;
      stack = v.stack;
      budgets = v.budgets;
      network = v.network;
      memory = v.memory;
      words = v.words;
      few_words = v.few_words;
      board = v.board;
    } in
    let entered = enter_phase-IsSound (next_phase l.phase) started w in
    if-IsSound (ltb (sub_u64 l.spark.pulse_count l.phase_start) phase_duration) l _ v (
      spark-IsSound (enter_phase (next_phase l.phase) started) _ entered (
        align_small (enter_phase (next_phase l.phase) started).spark
          (hour_of s.rtc_hours s.rtc_reg_b) entered.byte))

feel-IsSound : (l : Life) → IsSound l → IsSound (feel l)
unfolding feel
feel-IsSound l v = excite-IsSound _ node_pain _ (with_nerves-IsSound l _ v)

feed-IsSound : (l : Life) → IsSound l → IsSound (feed l)
unfolding feed
feed-IsSound l v =
    let after = settle l (Metabolism.tick no_receptor l.metabolism) in
    let w =
      settle-IsSound l (Metabolism.tick no_receptor l.metabolism) v
        (Budget.tick-IsValid no_receptor l.metabolism v.budgets) in
    if-IsSound (is_starving after.metabolism) _ after
      (spark-IsSound (excite after node_energy (pos 100)) _
        (excite-IsSound after node_energy (pos 100) w)
        (shift_balance_small after.spark yin 20 w.byte))
      w

-- The board on its targets is not moved, and asks for order.
regulate_still :
    (bus : Bus) (junk : Globule)
    → ((regulate Regulator.initial bus junk).0 ≡ Regulator.initial)
      × ((regulate Regulator.initial bus junk).1 ≡ yang)
unfolding regulate Regulator.initial Regulator.regulate_param
regulate_still bus junk = (refl, refl)

regulated-IsSound : (l : Life) (s : Senses) → IsSound l → IsSound (regulated l s)
unfolding regulated
regulated-IsSound l s v =
    let (board, force, bus) = regulate l.board l.metabolism.nerves.mind.bus s.junk in
    with_bus-IsSound (record l { board = board; spark = shift_balance l.spark force 1 }) bus
      (record {
        byte = shift_balance_small l.spark force 1 v.byte;
        stack = v.stack;
        budgets = v.budgets;
        network = v.network;
        memory = v.memory;
        words = v.words;
        few_words = v.few_words;
        board =
            ap (λ b. (regulate b l.metabolism.nerves.mind.bus s.junk).0) v.board
            ∙ (regulate_still l.metabolism.nerves.mind.bus s.junk).0;
      })

-- The body is always viable: no beat comes to the panic.
balance_calm : (l : Life) (s : Senses) → IsSound l → balance l s ≡ (regulated l s, false)
unfolding balance is_viable Regulator.initial
balance_calm l s v =
    let viable : is_viable (regulated l s).board ≡ true =
      ap is_viable (regulated-IsSound l s v).board in
    rw (balance, viable) refl

pub morning_lem :
    (l : Life) (s : Senses) → IsSound l → (l' : Life) × IsSound l' × (morning l s ≡ (l', false))
unfolding morning
morning_lem l s v =
    let started = spark-IsSound l (steel_tick l s).spark v v.byte in
    let turned = circadian-IsSound (steel_tick l s) s started in
    let hurt = feel-IsSound (circadian (steel_tick l s) s) turned in
    let fed = feed-IsSound (feel (circadian (steel_tick l s) s)) hurt in
    let before = feed (feel (circadian (steel_tick l s) s)) in
    (regulated before s, regulated-IsSound before s fed, balance_calm before s fed)
