-- ===== src/Bot/History.antt =====
-- A ring of the 256 latest records with a running 32-bit head, as the instinct layer and the
-- territory map of bot-baremetal keep one, and the list of all records that it stands for.
use operating_organism.Prelude.{
  ltb, leb, ◌==◌, if◌then◌else◌, Bool-cases, length, get_elem?, get_or, take, drop, u32, sub_u32,
  drop_cons, ℕ, zero, suc, ◌+◌, ◌%◌, ◌^◌, ◌≤◌, ◌<◌, min, ◌≡◌, refl, sym, ap, ◌∙◌, ◌≢◌, inl, inr,
  Option, none, some, List, [], ◌∷◌, arith,
}
use operating_organism.Bus.{update}

abbrev pub history_size : ℕ
history_size = 256

-- An array of 256 records as a function of the index, the head, and the number of records held.
pub record History {ℓ} (A : Type ℓ) : Type ℓ where
  pub slots : ℕ → A
  pub head : ℕ
  pub count : ℕ

module _ {ℓ} {A : Type ℓ} where
  abbrev pub push : History A → A → History A
  push t a = record {
    slots = update t.slots (t.head % history_size) a;
    head = u32 (t.head + 1);
    count = if ltb t.count history_size then u32 (t.count + 1) else t.count;
  }

  -- The slot of the record before which `i` others were pushed since.
  abbrev slot_of : History A → ℕ → ℕ
  slot_of t i = u32 (sub_u32 (sub_u32 t.head 1) i + history_size) % history_size

  abbrev pub last : History A → Option A
  last t =
      if t.count == 0
      then none
      else some (t.slots (u32 (sub_u32 t.head 1 + history_size) % history_size))

  -- The `n` records from number `i` on, the latest being number 0.
  recent_from : ℕ → ℕ → History A → List A
  recent_from zero i t = []
  recent_from (suc n) i t = t.slots (slot_of t i) ∷ recent_from n (suc i) t

  -- The `n` latest records, or all that are held.
  unfoldable pub recent : ℕ → History A → List A
  unfolding recent_from
  recent n t = recent_from (if ltb t.count n then t.count else n) 0 t

  -- The ring holds the front of `log`, a list of all records, the latest first.
  pub record Holds (t : History A) (log : List A) : Type ℓ where
    pub bounded : t.head < 2 ^ 32
    pub counted : t.count ≡ min history_size (length log)
    pub held : (i : ℕ) (d : A) → i < t.count → t.slots (slot_of t i) ≡ get_or log i d

  pub empty-Holds : (slots : ℕ → A) → Holds (record { slots = slots; head = 0; count = 0 }) []
  empty-Holds slots = record {
    bounded = omega arith;
    counted = refl;
    held = λ i d h. absurd (omega arith);
  }

  module _ (t : History A) (a : A) (small : t.head < 2 ^ 32) where
    newest : slot_of (push t a) 0 ≡ t.head % history_size
    newest = omega arith

    older : (i : ℕ) → i < 255 → slot_of (push t a) (suc i) ≡ slot_of t i
    older i h = omega arith

    older-ne : (i : ℕ) → i < 255 → slot_of t i ≢ t.head % history_size
    older-ne i h = λ e. omega arith

  update_self : (f : ℕ → A) (i j : ℕ) (v : A) → j ≡ i → update f i v j ≡ v
  update_self f i j v e = ground arith

  update_ne : (f : ℕ → A) (i j k : ℕ) (v : A) → j ≡ k → k ≢ i → update f i v j ≡ f k
  update_ne f i j k v e h = ground arith

  pub push-Holds : (t : History A) (log : List A) (a : A) → Holds t log → Holds (push t a) (a ∷ log)
  push-Holds t log a v = record {
    bounded = omega arith;
    counted = ground (arith, v.counted);
    held = held';
  }
    where
      held' :
          (i : ℕ) (d : A)
          → i < (push t a).count
          → (push t a).slots (slot_of (push t a) i) ≡ get_or (a ∷ log) i d
      held' zero d h =
          update_self t.slots (t.head % history_size) (slot_of (push t a) 0) a
            (newest t a v.bounded)
      held' (suc i) d h =
          let room : i < 255 = ground (arith, v.counted) in
          update_ne t.slots (t.head % history_size) (slot_of (push t a) (suc i)) (slot_of t i) a
            (older t a v.bounded i room) (older-ne t a v.bounded i room)
          ∙ v.held i d (ground arith)

  take_all : (n : ℕ) (xs : List A) → length xs ≤ n → take n xs ≡ xs
  take_all zero [] h = refl
  take_all zero (x ∷ xs) h = absurd (omega arith)
  take_all (suc n) [] h = refl
  take_all (suc n) (x ∷ xs) h = rw (take_all n xs (omega arith)) refl

  take-min : (n : ℕ) (xs : List A) → take (min n (length xs)) xs ≡ take n xs
  take-min n xs = elim (Bool-cases (leb n (length xs))) [
    | inl e ↦ ap (λ k. take k xs) {x = min n (length xs)} {y = n} (ground (arith, e))
    | inr e ↦
        take_all (min n (length xs)) xs (ground (arith, e))
        ∙ sym (take_all n xs (ground (arith, e)))
  ]

  -- The latest record of a ring is that of the list of all records.
  pub last-Holds : (t : History A) (log : List A) → Holds t log → last t ≡ get_elem? log 0
  last-Holds t [] v = ground (arith, v.counted)
  last-Holds t (a ∷ log) v =
      let index : u32 (sub_u32 t.head 1 + history_size) % history_size ≡ slot_of t 0 =
        (let b = v.bounded in omega arith) in
      let some_held : 0 < t.count = ground (arith, v.counted) in
      let found : t.slots (slot_of t 0) ≡ a = v.held 0 a some_held in
      ground (arith, ap t.slots index, found)

  recent_from-Holds :
      (n i : ℕ) (t : History A) (log : List A) (d : A)
      → Holds t log
      → i + n ≤ t.count
      → recent_from n i t ≡ take n (drop i log)
  unfolding recent_from
  recent_from-Holds zero i t log d v h = refl
  recent_from-Holds (suc n) i t log d v h =
      let here = v.held i d (omega arith) in
      rw
        (
          drop_cons i log d (ground (arith, v.counted)),
          here,
          recent_from-Holds n (suc i) t log d v (omega arith),
        )
        refl

  -- The `n` latest records of a ring are the front of the list of all records, as far as the ring
  -- reaches back.
  pub recent-Holds :
      (n : ℕ) (t : History A) (log : List A)
      → Holds t log
      → recent n t ≡ take (min n history_size) log
  unfolding recent
  recent-Holds n t [] v =
      let empty : take (min n history_size) [] ≡ [] =
        take_all (min n history_size) [] (omega arith) in
      ground (arith, v.counted, empty)
  recent-Holds n t (a ∷ log) v =
      let k = if ltb t.count n then t.count else n in
      let same : k ≡ min (min n history_size) (length (a ∷ log)) = ground (arith, v.counted) in
      recent_from-Holds k 0 t (a ∷ log) a v (ground arith)
      ∙ ap (λ m. take m (a ∷ log)) same
      ∙ take-min (min n history_size) (a ∷ log)
