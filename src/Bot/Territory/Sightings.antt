-- ===== src/Bot/Territory/Sightings.antt =====
-- What an observation of a process answers, and when it counts as an anomaly.
use operating_organism.Prelude.{
  leb, ◌==◌, Bool-cases, Option-cases, length, u64, ℕ, zero, suc, ◌+◌, ◌%◌, ◌≤◌, ◌≡◌, refl, sym,
  ◌∙◌, ◌≢◌, ◌↔◌, inl, inr, Bool, true, Option, none, some, List, [], ◌∷◌, ◌++◌, arith,
}
use operating_organism.Bot.Territory.{
  new_process, max_processes, TerritoryMap, record_anomaly, find_index, modify,
}
use operating_organism.Bot.Territory.Observe.{observe_process}
use operating_organism.Bot.History.{history_size}

module _ {ℓ} {A : Type ℓ} (p : A → Bool) where
  find-snoc :
      (xs : List A) (x : A)
      → find_index p xs ≡ none
      → p x ≡ true
      → find_index p (xs ++ (x ∷ [])) ≡ some (length xs)
  unfolding find_index
  find-snoc [] x e h = rw h refl
  find-snoc (y ∷ xs) x e h = ground (arith, find-snoc xs x, e, h)

  find-modify :
      (f : A → A) (i : ℕ) (xs : List A)
      → ((y : A) → p (f y) ≡ p y)
      → find_index p (modify f i xs) ≡ find_index p xs
  unfolding find_index modify
  find-modify f i [] k = refl
  find-modify f zero (x ∷ xs) k = rw (k x) refl
  find-modify f (suc i) (x ∷ xs) k = rw (find-modify f i xs k) refl

abbrev process_of : TerritoryMap → ℕ → Option ℕ
process_of m pid = find_index (λ p. p.pid == pid) m.processes

some_ne_none {ℓ} : {A : Type ℓ} {a : A} → some a ≢ none
some_ne_none h = ground (arith, h)

same_self : (n : ℕ) → (n == n) ≡ true
same_self n = ground arith

-- An observation answers the entry of the process in the new map. It fails, and changes nothing,
-- exactly if the process is not known and the pool of 512 is full. It is recorded as an anomaly
-- exactly if the process was not known and gets an entry.
observe_process_lem :
    (m : TerritoryMap) (pid ppid : ℕ) (name path : Option (List ℕ))
    → let (m', found) = observe_process m pid ppid name path in
      (found ≡ process_of m' pid)
      × (found ≡ none → m' ≡ m)
      × ((found ≡ none) ↔ ((process_of m pid ≡ none) × (max_processes ≤ length m.processes)))
      × (process_of m pid ≡ none
          → found ≢ none
          → (m'.total_anomalies ≡ u64 (m.total_anomalies + 1))
            × (m'.anomalies.slots (m.anomalies.head % history_size)).anomaly_type ≡ new_process)
      × (process_of m pid ≢ none → m'.anomalies ≡ m.anomalies)
unfolding observe_process record_anomaly
observe_process_lem m pid ppid name path =
    elim (Option-cases (find_index (λ p. p.pid == pid) m.processes)) [
      | inl e ↦ elim (Bool-cases (leb max_processes (length m.processes))) [
        | inl k ↦
            rw (observe_process, e, k)
              (
                sym e,
                λ _. refl,
                (λ _. (refl, ground (arith, k)), λ _. refl),
                λ _ h. absurd (h refl),
                λ _. refl,
              )
        | inr k ↦
            rw (observe_process, e, k)
              (
                sym (find-snoc (λ p. p.pid == pid) m.processes _ e (same_self pid)),
                λ h. absurd (some_ne_none h),
                (λ h. absurd (some_ne_none h), λ h. ground (arith, k, h.1)),
                λ _ _. (refl, ground arith),
                λ h. absurd (h refl),
              )
      ]
      | inr (i, e) ↦
          rw (observe_process, e)
            (
              sym (find-modify (λ p. p.pid == pid) _ i m.processes (λ y. refl) ∙ e),
              λ h. absurd (some_ne_none h),
              (λ h. absurd (some_ne_none h), λ h. absurd (some_ne_none h.0)),
              λ h _. absurd (some_ne_none h),
              λ _. refl,
            )
    ]
