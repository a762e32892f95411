-- ===== src/Memory/Hedged/Ownership/Lives.antt =====
-- Ownership through any sequence of calls.
use operating_organism.Prelude.{ℕ, List}
use operating_organism.Memory.Hedged.{Hedge, malloc, replicate_data, read, free}

-- The calls that change the state.
pub data Step (cells : ℕ) : Hedge → Hedge → Type 0 where
  allocates : (h : Hedge) (size replicas : ℕ) → Step cells h (malloc cells h size replicas).0
  writes : (h : Hedge) (ptr : ℕ) (xs : List ℕ) → Step cells h (replicate_data h ptr xs).0
  reads : (h : Hedge) (ptr size : ℕ) → Step cells h (read h ptr size).0
  frees : (h : Hedge) (ptr : ℕ) → Step cells h (free cells h ptr)

pub data Reach (cells : ℕ) (h : Hedge) : Hedge → Type 0 where
  here : Reach cells h h
  next : {t u : Hedge} → Reach cells h t → Step cells t u → Reach cells h u
