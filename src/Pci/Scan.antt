-- ===== src/Pci/Scan.antt =====
-- The walk of the drivers against the list of all functions.
use mathlib.Core.List.{append-nil, append_assoc}
use operating_organism.Prelude.{
  ltb, ◌==◌, if◌then◌else◌, not, Bool-cases, length, length-append, take, take_prefix, u16, ℕ, zero,
  suc, ◌+◌, ◌≤◌, ◌≡◌, refl, sym, ap, ◌∙◌, inl, inr, Bool, List, [], ◌∷◌, ◌++◌, arith,
}
use operating_organism.Pci.{
  OoPciDevice, read_config_32, describe, scan_funcs, scan_devs, scan_buses, enumerate,
}

-- Whether a function answers: its vendor is not all ones.
abbrev pub is_present : (ℕ → ℕ) → ℕ → ℕ → ℕ → Bool
is_present data_port bus dev func = not (u16 (read_config_32 data_port bus dev func 0x00) == 0xFFFF)

-- The functions of a device that answer, `n` of them from `func` on, those of the devices that
-- answer at their function 0, and those of the buses, in ascending order.
unfoldable pub funcs_present : ℕ → (ℕ → ℕ) → ℕ → ℕ → ℕ → List OoPciDevice
funcs_present zero data_port bus dev func = []
funcs_present (suc n) data_port bus dev func =
    (if is_present data_port bus dev func then describe data_port bus dev func ∷ [] else [])
    ++ funcs_present n data_port bus dev (func + 1)

unfoldable pub devs_present : ℕ → (ℕ → ℕ) → ℕ → ℕ → List OoPciDevice
devs_present zero data_port bus dev = []
devs_present (suc n) data_port bus dev =
    (if is_present data_port bus dev 0 then funcs_present 8 data_port bus dev 0 else [])
    ++ devs_present n data_port bus (dev + 1)

unfoldable pub buses_present : ℕ → (ℕ → ℕ) → ℕ → List OoPciDevice
buses_present zero data_port bus = []
buses_present (suc n) data_port bus =
    devs_present 32 data_port bus 0 ++ buses_present n data_port (bus + 1)

-- Cutting a list to `n` before more is appended makes no difference to the first `n`.
take_twice : (n : ℕ) (xs ys : List OoPciDevice) → take n (take n xs ++ ys) ≡ take n (xs ++ ys)
take_twice zero xs ys = refl
take_twice (suc n) [] ys = refl
take_twice (suc n) (x ∷ xs) ys = ap (λ zs. x ∷ zs) (take_twice n xs ys)

pub take_fitting : (n : ℕ) (xs : List OoPciDevice) → length xs ≤ n → take n xs ≡ xs
take_fitting zero [] h = refl
take_fitting zero (x ∷ xs) h = absurd (omega arith)
take_fitting (suc n) [] h = refl
take_fitting (suc n) (x ∷ xs) h = ap (λ zs. x ∷ zs) (take_fitting n xs (omega arith))

take_full : (n : ℕ) (xs ys : List OoPciDevice) → length xs ≡ n → take n (xs ++ ys) ≡ xs
take_full n xs ys h = take_prefix n xs ys h

-- What a loop makes of a list that is not too long.
abbrev Adds : ℕ → List OoPciDevice → List OoPciDevice → List OoPciDevice → Type 0
Adds m out xs out' = (out' ≡ take m (out ++ xs)) × (length out' ≤ m)

length-take_le : (n : ℕ) (xs : List OoPciDevice) → length (take n xs) ≤ n
length-take_le zero xs = omega arith
length-take_le (suc n) [] = omega arith
length-take_le (suc n) (x ∷ xs) = omega (arith, length-take_le n xs)

add_nothing : (m : ℕ) (out : List OoPciDevice) → length out ≤ m → Adds m out [] out
add_nothing m out h = (sym (ap (take m) (append-nil out) ∙ take_fitting m out h), h)

add_both :
    (m : ℕ) (out xs ys mid out' : List OoPciDevice)
    → Adds m out xs mid
    → Adds m mid ys out'
    → Adds m out (xs ++ ys) out'
add_both m out xs ys mid out' (p, _) (q, h) = (
  q
      ∙ ap (λ zs. take m (zs ++ ys)) p
      ∙ take_twice m (out ++ xs) ys
      ∙ ap (take m) (append_assoc out xs ys),
  h,
)

add_one :
    (m : ℕ) (out : List OoPciDevice) (d : OoPciDevice)
    → length out ≤ m
    → Adds m out (d ∷ []) (if ltb (length out) m then out ++ (d ∷ []) else out)
add_one m out d h = elim (Bool-cases (ltb (length out) m)) [
  | inl room ↦
      let size = length-append out (d ∷ []) in
      let fits : length (out ++ (d ∷ [])) ≤ m = ground (arith, room, size) in
      rw room (sym (take_fitting m (out ++ (d ∷ [])) fits), fits)
  | inr full ↦ rw full (sym (take_full m out (d ∷ []) (ground (arith, full, h))), h)
]

module _ (data_port : ℕ → ℕ) (m : ℕ) where
  one_func :
      (bus dev func : ℕ) (out : List OoPciDevice)
      → length out ≤ m
      → Adds m out
          (if is_present data_port bus dev func then describe data_port bus dev func ∷ [] else [])
          (if u16 (read_config_32 data_port bus dev func 0x00) == 0xFFFF
            then out
            else (if ltb (length out) m
                then out ++ (describe data_port bus dev func ∷ [])
                else out))
  one_func bus dev func out h =
      elim (Bool-cases (u16 (read_config_32 data_port bus dev func 0x00) == 0xFFFF)) [
        | inl absent ↦ rw absent (add_nothing m out h)
        | inr present ↦ rw present (add_one m out (describe data_port bus dev func) h)
      ]

  scan_funcs_lem :
      (n bus dev func : ℕ) (out : List OoPciDevice)
      → length out ≤ m
      → Adds m out
          (funcs_present n data_port bus dev func)
          (scan_funcs n data_port m bus dev func out)
  unfolding scan_funcs funcs_present
  scan_funcs_lem zero bus dev func out h = add_nothing m out h
  scan_funcs_lem (suc n) bus dev func out h =
      let one = one_func bus dev func out h in
      add_both m out _ _ _ _ one (scan_funcs_lem n bus dev (func + 1) _ one.1)

  one_dev :
      (bus dev : ℕ) (out : List OoPciDevice)
      → length out ≤ m
      → Adds m out
          (if is_present data_port bus dev 0 then funcs_present 8 data_port bus dev 0 else [])
          (if u16 (read_config_32 data_port bus dev 0 0x00) == 0xFFFF
            then out
            else scan_funcs 8 data_port m bus dev 0 out)
  one_dev bus dev out h =
      elim (Bool-cases (u16 (read_config_32 data_port bus dev 0 0x00) == 0xFFFF)) [
        | inl absent ↦ rw absent (add_nothing m out h)
        | inr present ↦ rw present (scan_funcs_lem 8 bus dev 0 out h)
      ]

  scan_devs_lem :
      (n bus dev : ℕ) (out : List OoPciDevice)
      → length out ≤ m
      → Adds m out (devs_present n data_port bus dev) (scan_devs n data_port m bus dev out)
  unfolding scan_devs devs_present
  scan_devs_lem zero bus dev out h = add_nothing m out h
  scan_devs_lem (suc n) bus dev out h =
      let one = one_dev bus dev out h in
      add_both m out _ _ _ _ one (scan_devs_lem n bus (dev + 1) _ one.1)

  scan_buses_lem :
      (n bus : ℕ) (out : List OoPciDevice)
      → length out ≤ m
      → Adds m out (buses_present n data_port bus) (scan_buses n data_port m bus out)
  unfolding scan_buses buses_present
  scan_buses_lem zero bus out h = add_nothing m out h
  scan_buses_lem (suc n) bus out h =
      let one = scan_devs_lem 32 bus 0 out h in
      add_both m out _ _ _ _ one (scan_buses_lem n (bus + 1) _ one.1)

-- The enumeration writes the functions that answer, of the devices that answer at their function 0,
-- in ascending order of bus, device and function: all of them, or the first `max_devices` if there
-- are more.
pub enumerate_lem :
    (data_port : ℕ → ℕ) (max_devices : ℕ)
    → enumerate data_port max_devices ≡ take max_devices (buses_present 256 data_port 0)
unfolding enumerate
enumerate_lem data_port max_devices =
    (scan_buses_lem data_port max_devices 256 0 [] (omega arith)).0
