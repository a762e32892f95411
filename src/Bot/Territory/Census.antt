-- ===== src/Bot/Territory/Census.antt =====
-- Entries of a pool that no two of share a key, and what the operations of the territory map do to
-- such a pool.
use operating_organism.Prelude.{
  length, All, All-map, ℕ, zero, suc, ◌≡◌, refl, ◌∙◌, Bool, false, none, List, [], ◌∷◌, ◌++◌, map,
  arith,
}
use operating_organism.Bot.Territory.{find_index, modify}

module _ {ℓ} {A : Type ℓ} where
  -- No two entries are the same.
  abbrev pub Apart : (A → A → Bool) → List A → Type 0
  Apart same [] = Unit {0}
  Apart same (x ∷ xs) = All (λ y. same x y ≡ false) xs × Apart same xs

  pub find-none : (p : A → Bool) (xs : List A) → find_index p xs ≡ none → All (λ y. p y ≡ false) xs
  unfolding find_index
  find-none p [] e = tt
  find-none p (x ∷ xs) e = ground (arith, find-none p xs)

  All-weaken : {P Q : A → Type 0} (xs : List A) → ((x : A) → P x → Q x) → All P xs → All Q xs
  All-weaken [] k h = tt
  All-weaken (x ∷ xs) k (h, hs) = (k x h, All-weaken xs k hs)

  pub All-snoc : (P : A → Type 0) (xs : List A) (x : A) → All P xs → P x → All P (xs ++ (x ∷ []))
  All-snoc P [] x h hx = (hx, tt)
  All-snoc P (y ∷ xs) x (h, hs) hx = (h, All-snoc P xs x hs hx)

  pub All-modify :
      {P : A → Type 0} (f : A → A) (i : ℕ) (xs : List A)
      → ((x : A) → P x → P (f x))
      → All P xs
      → All P (modify f i xs)
  unfolding modify
  All-modify f i [] k h = tt
  All-modify f zero (x ∷ xs) k (h, hs) = (k x h, hs)
  All-modify f (suc i) (x ∷ xs) k (h, hs) = (h, All-modify f i xs k hs)

  pub length-modify : (f : A → A) (i : ℕ) (xs : List A) → length (modify f i xs) ≡ length xs
  unfolding modify
  length-modify f i [] = refl
  length-modify f zero (x ∷ xs) = refl
  length-modify f (suc i) (x ∷ xs) = rw (length-modify f i xs) refl

module _ {ℓ} {A : Type ℓ} (same : A → A → Bool) where
  pub Apart-snoc :
      (xs : List A) (x : A)
      → All (λ y. same y x ≡ false) xs
      → Apart same xs
      → Apart same (xs ++ (x ∷ []))
  Apart-snoc [] x h a = (tt, tt)
  Apart-snoc (y ∷ xs) x (h, hs) (a, rest) =
      (All-snoc (λ z. same y z ≡ false) xs x a h, Apart-snoc xs x hs rest)

  -- A change of an entry that keeps its key.
  module _ (f : A → A) (left : (x y : A) → same (f x) y ≡ same x y)
      (right : (x y : A) → same x (f y) ≡ same x y) where
    pub Apart-modify : (i : ℕ) (xs : List A) → Apart same xs → Apart same (modify f i xs)
    unfolding modify
    Apart-modify i [] a = tt
    Apart-modify zero (x ∷ xs) (a, rest) = (All-weaken xs (λ y h. left x y ∙ h) a, rest)
    Apart-modify (suc i) (x ∷ xs) (a, rest) =
        (All-modify f i xs (λ y h. right x y ∙ h) a, Apart-modify i xs rest)

    pub Apart-map : (xs : List A) → Apart same xs → Apart same (map f xs)
    Apart-map [] a = tt
    Apart-map (x ∷ xs) (a, rest) = (
      All-map (λ y. same (f x) y ≡ false) f xs (λ y h. right (f x) y ∙ h)
          (All-weaken xs (λ y h. left x y ∙ h) a),
      Apart-map xs rest,
    )
