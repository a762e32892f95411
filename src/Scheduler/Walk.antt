-- ===== src/Scheduler/Walk.antt =====
-- Walks along the `next` pointers of a chain of tasks.
use operating_organism.Prelude.{
  ltb, if◌then◌else◌, not, length, set, length-set, get_or, get_or-set_self, get_or-set_ne, ℕ, zero,
  suc, ◌≤◌, ◌<◌, ◌≡◌, refl, ap, ◌∙◌, ◌&&◌, Option, none, some, List, [], ◌∷◌, arith,
}
use operating_organism.Scheduler.{Task, blank, walk, beat}

-- The pointer to slot `k - 1`: in a pool that was filled from the front each slot points to the one
-- before it, and the head is the slot filled last.
abbrev pub link : ℕ → Option ℕ
link zero = none
link (suc k) = some k

-- The first `n` slots are chained; the task at slot `i` has link `link i`.
abbrev pub Chained : ℕ → List Task → Type 0
Chained n pool = (i : ℕ) → i < n → (get_or pool i blank).next ≡ link i

-- `f` on the first `n` tasks of a pool.
abbrev pub map_first : ℕ → (Task → Task) → List Task → List Task
map_first zero f ts = ts
map_first (suc n) f [] = []
map_first (suc n) f (t ∷ ts) = f t ∷ map_first n f ts

pub length-map_first :
    (n : ℕ) (f : Task → Task) (ts : List Task) → length (map_first n f ts) ≡ length ts
length-map_first zero f ts = refl
length-map_first (suc n) f [] = refl
length-map_first (suc n) f (t ∷ ts) = ap suc (length-map_first n f ts)

pub get-map_first :
    (n i : ℕ) (f : Task → Task) (ts : List Task)
    → n ≤ length ts
    → get_or (map_first n f ts) i blank
      ≡ (if ltb i n then f (get_or ts i blank) else get_or ts i blank)
get-map_first zero i f ts h = ground arith
get-map_first (suc n) i f [] h = absurd (omega arith)
get-map_first (suc n) zero f (t ∷ ts) h = ground arith
get-map_first (suc n) (suc i) f (t ∷ ts) h = ground (arith, get-map_first n i f ts (omega arith))

-- One more slot at the end of those that are done.
map_first-set :
    (n : ℕ) (f : Task → Task) (ts : List Task)
    → n < length ts
    → map_first n f (set ts n (f (get_or ts n blank))) ≡ map_first (suc n) f ts
map_first-set zero f [] h = absurd (omega arith)
map_first-set zero f (t ∷ ts) h = refl
map_first-set (suc n) f [] h = absurd (omega arith)
map_first-set (suc n) f (t ∷ ts) h = ap (λ l. f t ∷ l) (map_first-set n f ts (omega arith))

-- A walk along the chain ends within as many rounds as there are tasks, and changes exactly those.
pub walk-Chained :
    (n fuel : ℕ) (f : Task → Task) (pool : List Task)
    → n ≤ fuel
    → n ≤ length pool
    → Chained n pool
    → walk fuel f (link n) pool ≡ some (map_first n f pool)
unfolding walk
walk-Chained zero zero f pool le l c = refl
walk-Chained zero (suc fuel) f pool le l c = refl
walk-Chained (suc n) zero f pool le l c = absurd (omega arith)
walk-Chained (suc n) (suc fuel) f pool le l c =
    let pool' : List Task = set pool n (f (get_or pool n blank)) in
    ap (λ k. walk fuel f k pool') (c n (omega arith))
    ∙ walk-Chained n fuel f pool' (omega arith)
        (omega (arith, length-set pool n (f (get_or pool n blank))))
        (λ i h.
          ground (arith, get_or-set_ne pool n i (f (get_or pool n blank)) blank, c i (omega arith)))
    ∙ ap some (map_first-set n f pool l)

-- A task that points at itself keeps a walk that reaches it from ever ending.
pub walk_cycle :
    (fuel i : ℕ) (f : Task → Task) (pool : List Task)
    → ((t : Task) → (f t).next ≡ t.next)
    → i < length pool
    → (get_or pool i blank).next ≡ some i
    → walk fuel f (some i) pool ≡ none
unfolding walk
walk_cycle zero i f pool keep l e = refl
walk_cycle (suc fuel) i f pool keep l e =
    let t : Task = f (get_or pool i blank) in
    rw (e, walk)
      (walk_cycle fuel i f (set pool i t) keep (omega (arith, length-set pool i t)) (
        ap (λ (u : Task). u.next) (get_or-set_self pool i t blank l)
        ∙ keep (get_or pool i blank)
        ∙ e))

-- The entry points of the tasks that run, the last slot first.
abbrev pub running : ℕ → List Task → List ℕ
running zero pool = []
running (suc n) pool =
    let t = get_or pool n blank in
    let rest = running n pool in
    if not t.is_sleeping && ltb 0 t.current_cpu_share
    then elim t.entry_point [ none ↦ rest | some e ↦ e ∷ rest ]
    else rest

pub beat-Chained :
    (n fuel : ℕ) (pool : List Task)
    → n ≤ fuel
    → Chained n pool
    → beat fuel (link n) pool ≡ some (running n pool)
unfolding beat
beat-Chained zero zero pool le c = refl
beat-Chained zero (suc fuel) pool le c = refl
beat-Chained (suc n) zero pool le c = absurd (omega arith)
beat-Chained (suc n) (suc fuel) pool le c =
    ground (arith, c n, beat-Chained n fuel pool (omega arith) (λ i h. c i (omega arith)))
