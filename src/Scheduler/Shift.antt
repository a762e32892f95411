-- ===== src/Scheduler/Shift.antt =====
-- A change of state reaches every organ, and ends.
use operating_organism.Prelude.{
  ltb, if◌then◌else◌, ℕ, ◌≤◌, ◌≡◌, refl, ◌∙◌, ◌≢◌, true, false, some, arith,
}
use operating_organism.Scheduler.{
  HomeostasisState, relaxed, vigilant, combat, survival, cortex, immune, Task, Scheduler,
  reallocate, state_code, set_state,
}
use operating_organism.Scheduler.Walk.{map_first, length-map_first, get-map_first, walk-Chained}
use operating_organism.Scheduler.Register.{slot, IsValid}

fixed-reallocate :
    (to : HomeostasisState) (t : Task)
    → ((reallocate to t).task_id ≡ t.task_id)
      × ((reallocate to t).next ≡ t.next)
      × ((reallocate to t).type ≡ t.type)
      × ((reallocate to t).entry_point ≡ t.entry_point)
unfolding reallocate
fixed-reallocate relaxed t = (refl, refl, refl, refl)
fixed-reallocate vigilant t = (refl, refl, refl, refl)
fixed-reallocate combat t = (refl, refl, refl, refl)
fixed-reallocate survival t = (refl, refl, refl, refl)

-- A change of the first `n` tasks that leaves ids and pointers alone keeps the scheduler valid.
module _ (n : ℕ) (s s' : Scheduler) (f : Task → Task) (v : IsValid n s)
    (keep : (t : Task) → ((f t).task_id ≡ t.task_id) × ((f t).next ≡ t.next))
    (p : s'.organ_pool ≡ map_first n f s.organ_pool) where
  slot-map_first : (i : ℕ) → slot s' i ≡ (if ltb i n then f (slot s i) else slot s i)
  slot-map_first i = rw p (get-map_first n i f s.organ_pool (omega (arith, v)))

  pub map_first-IsValid :
      s'.head_organ ≡ s.head_organ → s'.next_task_id ≡ s.next_task_id → IsValid n s'
  map_first-IsValid h k = record {
    size = rw p (length-map_first n f s.organ_pool ∙ v.size);
    count = v.count;
    head = h ∙ v.head;
    chained = λ i l. ground (arith, slot-map_first i, keep (slot s i), v.chained i l);
    used = λ i l. ground (arith, slot-map_first i, keep (slot s i), v.used i l);
    free = λ i le l. ground (arith, slot-map_first i, v.free i le l);
    next_id = k ∙ v.next_id;
  }

-- The shares that a state gives to the immune system and to the cortex.
abbrev immune_share : HomeostasisState → ℕ
immune_share relaxed = 10
immune_share vigilant = 40
immune_share combat = 90
immune_share survival = 95

abbrev cortex_share : HomeostasisState → ℕ → ℕ
cortex_share relaxed old = 80
cortex_share vigilant old = 50
cortex_share combat old = 5
cortex_share survival old = old

-- What a change to state `to` makes of a task.
pub record Shifted (to : HomeostasisState) (t t' : Task) : Type 0 where
  pub same_task : (t'.task_id ≡ t.task_id) × (t'.type ≡ t.type) × (t'.entry_point ≡ t.entry_point)
  pub immune_gets : t.type ≡ immune → t'.current_cpu_share ≡ immune_share to
  pub cortex_gets : t.type ≡ cortex → t'.current_cpu_share ≡ cortex_share to t.current_cpu_share
  pub others_keep : t.type ≢ immune → t.type ≢ cortex → t'.current_cpu_share ≡ t.current_cpu_share
  pub cortex_suspended : to ≡ survival → t.type ≡ cortex → t'.is_sleeping ≡ true
  pub all_wake : to ≡ relaxed → t'.is_sleeping ≡ false
  pub sleep_stays : to ≢ relaxed → t.is_sleeping ≡ true → t'.is_sleeping ≡ true

-- The scheduler after a change to a state that is another than the present one.
abbrev pub shifted : ℕ → Scheduler → HomeostasisState → Scheduler
shifted n s to = record s {
  current_state = to;
  organ_pool = map_first n (reallocate to) s.organ_pool;
}

pub set_state-ne :
    (n fuel : ℕ) (s : Scheduler) (to : HomeostasisState)
    → IsValid n s
    → n ≤ fuel
    → state_code s.current_state ≢ state_code to
    → set_state fuel s to ≡ some (shifted n s to)
unfolding set_state
set_state-ne n fuel s to v le ne = ground (
  arith,
  v.head,
  walk-Chained n fuel (reallocate to) s.organ_pool le (omega (arith, v)) v.chained,
)

pub shifted-IsValid :
    (n : ℕ) (s : Scheduler) (to : HomeostasisState) → IsValid n s → IsValid n (shifted n s to)
shifted-IsValid n s to v =
    map_first-IsValid n s (shifted n s to) (reallocate to) v
      (λ t. let (a, b, _, _) = fixed-reallocate to t in (a, b)) refl refl refl
