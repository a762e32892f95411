-- ===== src/Vital/Metabolism.antt =====
-- vital-baremetal/src/energy_metabolism.c: the energy pool and the budgets of the organs.
pub mod Budget
use operating_organism.Vital.Nociception as Nociception
use operating_organism.Prelude.{
  ltb, leb, ◌==◌, if◌then◌else◌, not, length, set, get_or, u32, u64, sub_u64, ℕ, suc, ◌+◌, ◌*◌, ◌/◌,
  ◌%◌, Bool, true, false, Option, none, some, List, [], ◌∷◌, ◌++◌, map,
}
use operating_organism.Vital.Consciousness.{State, dormant, dreaming}
use operating_organism.Vital.Nociception.{searing, Nociceptor, Nerves, fire}

pub record OrganMetabolism : Type 0 where
  pub organ_id : ℕ
  pub calories_consumed : ℕ
  pub calories_allocated : ℕ
  pub metabolic_rate : ℕ
  pub is_fasting : Bool

pub record Liver : Type 0 where
  pub total_energy_pool : ℕ
  pub energy_generated : ℕ
  pub energy_wasted : ℕ
  pub basal_metabolic_rate : ℕ

abbrev pub max_metabolic_organs : ℕ
max_metabolic_organs = 16

-- The statics, with the counter of `metabolism_tick`, and the nerves that famine hurts. The table
-- and its count are the list of the organs registered.
pub record Metabolism : Type 0 where
  pub organs : List OrganMetabolism
  pub liver : Liver
  pub cycle_counter : ℕ
  pub nerves : Nerves

-- `metabolism_init`; the cycle counter goes on.
unfoldable pub init : Metabolism → ℕ → Metabolism
init m energy = record m {
  organs = [];
  liver = record {
    total_energy_pool = energy;
    energy_generated = energy;
    energy_wasted = 0;
    basal_metabolic_rate = 100;
  };
}

-- `metabolism_register_organ`
unfoldable pub register_organ : Metabolism → ℕ → ℕ → Metabolism
register_organ m organ budget =
    if leb max_metabolic_organs (length m.organs)
    then m
    else let o : OrganMetabolism = record {
      organ_id = organ;
      calories_consumed = 0;
      calories_allocated = budget;
      metabolic_rate = 10;
      is_fasting = false;
    } in
      record m { organs = m.organs ++ (o ∷ []) }

-- The index of the first entry of an organ.
pub find_organ : ℕ → List OrganMetabolism → Option ℕ
find_organ organ [] = none
find_organ organ (o ∷ os) =
    if o.organ_id == organ
    then some 0
    else elim (find_organ organ os) [ none ↦ none | some i ↦ some (suc i) ]

-- What an organ is granted of `amount`, from its budget and from the pool.
abbrev pub grant : OrganMetabolism → ℕ → ℕ → ℕ
grant o pool amount =
    let remaining = sub_u64 o.calories_allocated o.calories_consumed in
    let granted = if leb amount remaining then amount else remaining in
    if ltb pool granted then pool else granted

-- The organ after a grant.
abbrev pub charge : OrganMetabolism → ℕ → OrganMetabolism
charge o granted =
    let consumed = u64 (o.calories_consumed + granted) in
    record o {
      calories_consumed = consumed;
      is_fasting = if leb o.calories_allocated consumed then true else o.is_fasting;
    }

abbrev pub no_organ : OrganMetabolism
no_organ = record {
  organ_id = 0;
  calories_consumed = 0;
  calories_allocated = 0;
  metabolic_rate = 0;
  is_fasting = false;
}

-- `metabolism_request_energy`: the new state, and the energy granted.
unfoldable pub request_energy : Metabolism → ℕ → ℕ → Metabolism × ℕ
unfolding find_organ
request_energy m organ amount = elim (find_organ organ m.organs) [
  | none ↦ (m, 0)
  | some i ↦
      let o = get_or m.organs i no_organ in
      let granted = grant o m.liver.total_energy_pool amount in
      if o.is_fasting then (m, 0) else (
        record m {
          organs = set m.organs i (charge o granted);
          liver = record (m.liver) {
            total_energy_pool = sub_u64 m.liver.total_energy_pool granted;
          };
        },
        granted,
      )
]

-- `metabolism_generate_energy`, on the liver.
abbrev pub generate : Liver → ℕ → Liver
generate l amount = record l {
  total_energy_pool = u64 (l.total_energy_pool + amount);
  energy_generated = u64 (l.energy_generated + amount);
}

-- The basal consumption of a tick.
abbrev pub burn : Liver → Liver
burn l =
    if ltb l.basal_metabolic_rate l.total_energy_pool
    then record l {
      total_energy_pool = sub_u64 l.total_energy_pool l.basal_metabolic_rate;
      energy_wasted = u64 (l.energy_wasted + l.basal_metabolic_rate);
    }
    else record l { total_energy_pool = 0 }

abbrev is_resting : State → Bool
is_resting dormant = true
is_resting dreaming = true
is_resting _ = false

-- The basal rate that goes with a pool.
abbrev adapt_rate : Liver → Liver
adapt_rate l = record l { basal_metabolic_rate = if ltb l.total_energy_pool 10000 then 50 else 100 }

-- `metabolism_tick`
unfoldable pub tick : Nociceptor → Metabolism → Metabolism
tick blank m =
    let starving = not (ltb m.liver.basal_metabolic_rate m.liver.total_energy_pool) in
    let nerves = if starving then fire blank m.nerves 0 searing 0xFADE0001 else m.nerves in
    let burnt = burn m.liver in
    let fed =
      if is_resting nerves.mind.current_state
      then generate burnt (u32 (burnt.basal_metabolic_rate * 2))
      else burnt in
    let cycle = u32 (m.cycle_counter + 1) in
    let recycle : OrganMetabolism → OrganMetabolism =
      λ o. record o { calories_consumed = o.calories_consumed / 2; is_fasting = false } in
    record {
      organs = if cycle % 50000 == 0 then map recycle m.organs else m.organs;
      liver = adapt_rate fed;
      cycle_counter = cycle;
      nerves = nerves;
    }

-- `metabolism_is_starving`
unfoldable pub is_starving : Metabolism → Bool
is_starving m = ltb m.liver.total_energy_pool (u32 (m.liver.basal_metabolic_rate * 10))
