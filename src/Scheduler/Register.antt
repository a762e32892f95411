-- ===== src/Scheduler/Register.antt =====
-- Registering organs: the chain of the pool, and what becomes of it when the ids run out.
use operating_organism.Prelude.{
  length, length-set, get_or, All-get_or, All-replicate, get_or-set_self, get_or-set_ne, ℕ, zero,
  suc, ◌+◌, ◌≤◌, ◌<◌, ◌≡◌, refl, sym, ap, ◌∙◌, ◌≢◌, false, Option, none, some, List, [], ◌∷◌, arith,
}
use operating_organism.Scheduler.{
  HomeostasisState, relaxed, vigilant, combat, survival, OrganType, Task, blank, max_organs,
  Scheduler, boot, init, find_free, default_share, fill_slot, register_organ, reallocate,
  state_code, set_state,
}
use operating_organism.Scheduler.Walk.{link, Chained, walk_cycle}
use native.Mathlib.Decide.{ℕ_discrete}

abbrev pub slot : Scheduler → ℕ → Task
slot s i = get_or s.organ_pool i blank

-- A scheduler with `n` organs registered since its first start: they fill the first `n` slots, each
-- pointing to the one before it, with the ids from 1 on.
pub record IsValid (n : ℕ) (s : Scheduler) : Type 0 where
  pub size : length s.organ_pool ≡ max_organs
  pub count : n ≤ max_organs
  pub head : s.head_organ ≡ link n
  pub chained : Chained n s.organ_pool
  pub used : (i : ℕ) → i < n → (slot s i).task_id ≢ 0
  pub free : (i : ℕ) → n ≤ i → i < max_organs → (slot s i).task_id ≡ 0
  pub next_id : s.next_task_id ≡ n + 1

find_free-some :
    (i n : ℕ) (pool : List Task)
    → n < length pool
    → ((j : ℕ) → j < n → (get_or pool j blank).task_id ≢ 0)
    → (get_or pool n blank).task_id ≡ 0
    → find_free i pool ≡ some (i + n)
unfolding find_free
find_free-some i n [] l u f = absurd (omega arith)
find_free-some i zero (t ∷ ts) l u f = ground arith
find_free-some i (suc n) (t ∷ ts) l u f = ground (
  arith,
  u 0 (omega arith),
  find_free-some (i + 1) n ts (omega arith) (λ j h. u (suc j) (omega arith)) f,
)

find_free-none :
    (i : ℕ) (pool : List Task)
    → ((j : ℕ) → j < length pool → (get_or pool j blank).task_id ≢ 0)
    → find_free i pool ≡ none
unfolding find_free
find_free-none i [] u = refl
find_free-none i (t ∷ ts) u =
    ground (arith, u 0 (omega arith), find_free-none (i + 1) ts (λ j h. u (suc j) (omega arith)))

find_free-first :
    (n : ℕ) (pool : List Task)
    → n < length pool
    → ((j : ℕ) → j < n → (get_or pool j blank).task_id ≢ 0)
    → (get_or pool n blank).task_id ≡ 0
    → find_free 0 pool ≡ some n
find_free-first n pool l u f = ground (arith, find_free-some 0 n pool l u f)

module _ (n : ℕ) (s : Scheduler) (v : IsValid n s) (type : OrganType) (entry : Option ℕ) where
  register_slot : n < max_organs → register_organ s type entry ≡ fill_slot s type entry n
  unfolding register_organ
  register_slot h =
      ground (
        arith,
        find_free-some 0 n s.organ_pool (omega (arith, v)) v.used (v.free n (omega arith) h),
      )

  register_full : n ≡ max_organs → register_organ s type entry ≡ s
  unfolding register_organ
  register_full h =
      ground (arith, find_free-none 0 s.organ_pool (λ j l. v.used j (omega (arith, v))))

  -- The task that is put into slot `n`.
  abbrev newcomer : Task
  newcomer = record {
    task_id = n + 1;
    type = type;
    entry_point = entry;
    current_cpu_share = default_share type;
    is_sleeping = false;
    next = link n;
  }

  slot_new : n < max_organs → slot (fill_slot s type entry n) n ≡ newcomer
  slot_new h = ground (arith, v, get_or-set_self s.organ_pool n newcomer blank (omega (arith, v)))

  slot_old : (i : ℕ) → i ≢ n → slot (fill_slot s type entry n) i ≡ slot s i
  slot_old i h = get_or-set_ne s.organ_pool n i _ blank (λ e. h (sym e))

  pub fill_slot-IsValid : n < max_organs → IsValid (n + 1) (fill_slot s type entry n)
  fill_slot-IsValid h = record {
    size = length-set s.organ_pool n _ ∙ v.size;
    count = omega arith;
    head = ap link {x = suc n} {y = n + 1} (omega arith);
    chained = λ i l. elim (ℕ_discrete i n) [
      | yes e ↦ rw e (ap (λ (t : Task). t.next) (slot_new h))
      | no ne ↦ rw (slot_old i ne) (v.chained i (omega arith))
    ];
    used = λ i l. elim (ℕ_discrete i n) [
      | yes e ↦ rw e (λ z. omega (arith, ap (λ (t : Task). t.task_id) (slot_new h)))
      | no ne ↦ rw (slot_old i ne) (v.used i (omega arith))
    ];
    free = λ i le lt. rw (slot_old i (omega arith)) (v.free i (omega arith) lt);
    next_id = omega (arith, v);
  }

-- Registering in a pool with room gives the organ the next slot and id and its default share, awake,
-- at the head of the chain, and leaves every other slot as it was; a full pool is left as it is.
register_lem :
    (n : ℕ) (s : Scheduler) (type : OrganType) (entry : Option ℕ) (i : ℕ)
    → IsValid n s
    → let s' = register_organ s type entry in
      (n < max_organs
        → (IsValid (n + 1) s')
          × (slot s' n ≡ record {
            task_id = n + 1;
            type = type;
            entry_point = entry;
            current_cpu_share = default_share type;
            is_sleeping = false;
            next = link n;
          })
          × (i ≢ n → slot s' i ≡ slot s i))
      × (n ≡ max_organs → s' ≡ s)
register_lem n s type entry i v = (
  λ h. rw (register_slot n s v type entry h) (
    fill_slot-IsValid n s v type entry h,
    slot_new n s v type entry h,
    slot_old n s v type entry i,
  ),
  register_full n s v type entry,
)

boot-slot : (i : ℕ) → slot boot i ≡ blank
boot-slot i =
    All-get_or (λ t. t ≡ blank) boot.organ_pool i blank
      (All-replicate (λ t. t ≡ blank) max_organs blank refl) refl

-- The state before the first call, and the one that `init` makes of it, have no organ registered.
pub init-boot-IsValid : IsValid 0 (init boot)
unfolding init
init-boot-IsValid = record {
  size = refl;
  count = omega arith;
  head = refl;
  chained = λ i h. absurd (omega arith);
  used = λ i h. absurd (omega arith);
  free = λ i le lt. rw (boot-slot i);
  next_id = refl;
}

register_at :
    (s : Scheduler) (type : OrganType) (entry : Option ℕ) (i : ℕ)
    → find_free 0 s.organ_pool ≡ some i
    → register_organ s type entry ≡ fill_slot s type entry i
unfolding register_organ
register_at s type entry i f = ground arith

next-reallocate : (to : HomeostasisState) (t : Task) → (reallocate to t).next ≡ t.next
unfolding reallocate
next-reallocate relaxed t = refl
next-reallocate vigilant t = refl
next-reallocate combat t = refl
next-reallocate survival t = refl

-- When the 8-bit id counter has wrapped to 0, the organ that is registered next, in the first free
-- slot `i`, gets the id that marks a free slot. The registration after it takes the same slot,
-- whose `next` then points at the slot itself, and no change of state ever ends from there.
register_cycle :
    (s : Scheduler) (type type' : OrganType) (entry entry' : Option ℕ) (i fuel : ℕ)
    (to : HomeostasisState)
    → s.next_task_id ≡ 0
    → i < length s.organ_pool
    → ((j : ℕ) → j < i → (slot s j).task_id ≢ 0)
    → (slot s i).task_id ≡ 0
    → state_code s.current_state ≢ state_code to
    → let s' = register_organ (register_organ s type entry) type' entry' in
      (s'.head_organ ≡ some i) × ((slot s' i).next ≡ some i) × (set_state fuel s' to ≡ none)
unfolding set_state
register_cycle s type type' entry entry' i fuel to z l u f ne =
    let s₁ : Scheduler = fill_slot s type entry i in
    let t₁ : Task = slot s₁ i in
    let s₂ : Scheduler = fill_slot s₁ type' entry' i in
    let l₁ : i < length s₁.organ_pool = omega (arith, length-set s.organ_pool i _) in
    let l₂ : i < length s₂.organ_pool = omega (arith, l₁, length-set s₁.organ_pool i _) in
    let e₁ : register_organ s type entry ≡ s₁ =
      register_at s type entry i (find_free-first i s.organ_pool l u f) in
    let free : t₁.task_id ≡ 0 =
      ap (λ (t : Task). t.task_id) (get_or-set_self s.organ_pool i _ blank l) ∙ z in
    let used : (j : ℕ) → j < i → (slot s₁ j).task_id ≢ 0 =
      λ j h. rw (get_or-set_ne s.organ_pool i j _ blank (omega arith)) (u j h) in
    let e₂ : register_organ s₁ type' entry' ≡ s₂ =
      register_at s₁ type' entry' i (find_free-first i s₁.organ_pool l₁ used free) in
    let self : (slot s₂ i).next ≡ some i =
      ap (λ (t : Task). t.next) (get_or-set_self s₁.organ_pool i _ blank l₁) in
    rw (e₁, e₂)
      (
        refl,
        self,
        ground
            (arith, walk_cycle fuel i (reallocate to) s₂.organ_pool (next-reallocate to) l₂ self),
      )
