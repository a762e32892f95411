-- ===== src/Pci/Find.antt =====
-- The walk of the network against that of the drivers.
use mathlib.Core.List.{append-nil}
use operating_organism.Prelude.{
  ◌==◌, if◌then◌else◌, not, Bool-cases, length, length-append, u16, select, select-append, ℕ, zero,
  suc, ◌+◌, ◌*◌, ◌/◌, ◌^◌, ◌≤◌, ◌<◌, bit_and, ◌≡◌, refl, sym, ap, ◌∙◌, inl, inr, Bool, true, false,
  ◌&&◌, ◌||◌, Option, none, some, List, [], ◌∷◌, ◌++◌, arith,
}
use operating_organism.Pci.{
  OoPciDevice, read_config_32, describe, enumerate, PciDev, config_read32, find_funcs, or_else,
  find_slots, find_buses, pci_find,
}
use operating_organism.Pci.Address.{addresses_agree}
use operating_organism.Pci.Scan.{
  is_present, funcs_present, devs_present, buses_present, take_fitting, enumerate_lem,
}

-- What the manual of the bus asks of a device: it has a function 0, so that one which does not
-- answer there answers at none. A device with a single function may answer at the others as well.
pub record IsPci (data_port : ℕ → ℕ) : Type 0 where
  pub alone :
      (bus slot func : ℕ)
      → bus < 256
      → slot < 32
      → func < 8
      → is_present data_port bus slot 0 ≡ false
      → is_present data_port bus slot func ≡ false

-- The header of a device tells that it has a single function.
abbrev pub is_single : (ℕ → ℕ) → ℕ → ℕ → Bool
is_single data_port bus slot = bit_and (config_read32 data_port bus slot 0 0x0C / 2 ^ 16) 0x80 == 0

-- An entry that is a function of its own: function 0, or any of a device with several.
abbrev pub is_separate : (ℕ → ℕ) → OoPciDevice → Bool
is_separate data_port d = d.func == 0 || not (is_single data_port d.bus d.dev)

-- The first device of a list with these ids, with its bars.
abbrev view : (ℕ → ℕ) → OoPciDevice → PciDev
view data_port d = record {
  bus = d.bus;
  slot = d.dev;
  func = d.func;
  vendor_id = d.vendor_id;
  device_id = d.device_id;
  bar0 = config_read32 data_port d.bus d.dev d.func 0x10;
  bar1 = config_read32 data_port d.bus d.dev d.func 0x14;
}

pub first : (ℕ → ℕ) → ℕ → ℕ → List OoPciDevice → Option PciDev
first data_port vendor device [] = none
first data_port vendor device (d ∷ ds) =
    let rest = first data_port vendor device ds in
    if d.vendor_id == vendor && d.device_id == device then some (view data_port d) else rest

module _ (data_port : ℕ → ℕ) (vendor device : ℕ) where
  abbrev found : List OoPciDevice → Option PciDev
  found = first data_port vendor device

  found_nil : found [] ≡ none
  unfolding first
  found_nil = refl

  first-append : (xs ys : List OoPciDevice) → found (xs ++ ys) ≡ or_else (found xs) (found ys)
  unfolding first
  first-append [] ys = refl
  first-append (x ∷ xs) ys = elim (Bool-cases (x.vendor_id == vendor && x.device_id == device)) [
    | inl same ↦ rw same refl
    | inr other ↦ rw other (first-append xs ys)
  ]

  module _ (bus slot : ℕ) (b : bus < 256) (s : slot < 32) where
    same_read :
        (func : ℕ)
        → func < 8
        → config_read32 data_port bus slot func 0 ≡ read_config_32 data_port bus slot func 0
    same_read func f = ap data_port (addresses_agree bus slot func 0 b s f (omega arith))

    none_present :
        (n func : ℕ)
        → ((k : ℕ) → func ≤ k → k < func + n → is_present data_port bus slot k ≡ false)
        → funcs_present n data_port bus slot func ≡ []
    unfolding funcs_present
    none_present zero func h = refl
    none_present (suc n) func h =
        rw (h func (omega arith) (omega arith))
          (none_present n (func + 1) (λ k l u. h k (omega (arith, l)) (omega (arith, u))))

    -- Whether the walk of the slot is left at a function that is not the one that is sought.
    abbrev is_left : ℕ → Bool
    is_left func = func == 0 && is_single data_port bus slot

    abbrev front : ℕ → List OoPciDevice
    front func =
        if is_present data_port bus slot func then describe data_port bus slot func ∷ [] else []

    -- One function, with what the later ones give where they are looked at.
    find_func :
        (n func : ℕ) (later : List OoPciDevice)
        → func < 8
        → (is_left func ≡ true → found later ≡ none)
        → (is_present data_port bus slot func ≡ false
            → find_funcs n data_port vendor device bus slot (func + 1) ≡ found later)
        → (is_left func ≡ false
            → find_funcs n data_port vendor device bus slot (func + 1) ≡ found later)
        → find_funcs (suc n) data_port vendor device bus slot func ≡ found (front func ++ later)
    unfolding find_funcs first
    find_func n func later f leaving passing staying =
        let same = same_read func f in
        let id = read_config_32 data_port bus slot func 0 in
        elim (Bool-cases (u16 id == 0xFFFF)) [
          | inl absent ↦ rw (same, absent) (passing (ground (arith, absent)))
          | inr present ↦ elim (Bool-cases (u16 id == vendor && u16 (id / 2 ^ 16) == device)) [
            | inl hit ↦ rw (same, present, hit) refl
            | inr miss ↦ elim (Bool-cases (is_left func)) [
              | inl leaves ↦ rw (same, present, miss, leaves) (sym (leaving leaves))
              | inr stays ↦ rw (same, present, miss, stays) (staying stays)
            ]
          ]
        ]

    find_later :
        (n func : ℕ)
        → 0 < func
        → func + n ≤ 8
        → find_funcs n data_port vendor device bus slot func
          ≡ found (funcs_present n data_port bus slot func)
    unfolding find_funcs funcs_present first
    find_later zero func l u = refl
    find_later (suc n) func l u =
        let later = find_later n (func + 1) (omega arith) (omega (arith, u)) in
        find_func n func (funcs_present n data_port bus slot (func + 1)) (omega (arith, u))
          (λ leaves. absurd (ground (arith, leaves, l))) (λ _. later) (λ _. later)

    -- The entries of the slot that are functions of their own.
    select_single :
        (n func : ℕ)
        → is_single data_port bus slot ≡ true
        → 0 < func
        → select (is_separate data_port) (funcs_present n data_port bus slot func) ≡ []
    unfolding funcs_present
    select_single zero func e l = refl
    select_single (suc n) func e l =
        let rest = select_single n (func + 1) e (omega arith) in
        let later : (func == 0) ≡ false = ground (arith, l) in
        elim (Bool-cases (is_present data_port bus slot func)) [
          | inl answers ↦ rw (answers, later, e) rest
          | inr silent ↦ rw silent rest
        ]

    select_several :
        (n func : ℕ)
        → is_single data_port bus slot ≡ false
        → select (is_separate data_port) (funcs_present n data_port bus slot func)
          ≡ funcs_present n data_port bus slot func
    unfolding funcs_present
    select_several zero func e = refl
    select_several (suc n) func e =
        let rest = select_several n (func + 1) e in
        let own : is_separate data_port (describe data_port bus slot func) ≡ true =
          ground (arith, e) in
        elim (Bool-cases (is_present data_port bus slot func)) [
          | inl answers ↦ rw (answers, own) (ap (λ ds. describe data_port bus slot func ∷ ds) rest)
          | inr silent ↦ rw silent rest
        ]

    -- What the enumeration has of a slot.
    abbrev slot_entries : List OoPciDevice
    slot_entries =
        if is_present data_port bus slot 0 then funcs_present 8 data_port bus slot 0 else []

    module _ (pci : IsPci data_port) where
      silent_slot :
          is_present data_port bus slot 0 ≡ false
          → (n func : ℕ) → func + n ≤ 8
          → funcs_present n data_port bus slot func ≡ []
      silent_slot silent n func u =
          none_present n func (λ k l h. pci.alone bus slot k b s (omega (arith, h, u)) silent)

      entries_single :
          is_single data_port bus slot ≡ true
          → select (is_separate data_port) slot_entries ≡ front 0
      unfolding funcs_present
      entries_single e = elim (Bool-cases (is_present data_port bus slot 0)) [
        | inl answers ↦
            rw answers
              (ap (λ ds. describe data_port bus slot 0 ∷ ds) (select_single 7 1 e (omega arith)))
        | inr silent ↦ rw silent refl
      ]

      entries_several :
          is_single data_port bus slot ≡ false
          → select (is_separate data_port) slot_entries
            ≡ front 0 ++ funcs_present 7 data_port bus slot 1
      unfolding funcs_present
      entries_several e = elim (Bool-cases (is_present data_port bus slot 0)) [
        | inl answers ↦
            rw answers (ap (λ ds. describe data_port bus slot 0 ∷ ds) (select_several 7 1 e))
        | inr silent ↦ rw silent (sym (silent_slot silent 7 1 (omega arith)))
      ]

      find_slot :
          find_funcs 8 data_port vendor device bus slot 0
          ≡ found (select (is_separate data_port) slot_entries)
      find_slot =
          let later = find_later 7 1 (omega arith) (omega arith) in
          elim (Bool-cases (is_single data_port bus slot)) [
            | inl single ↦
                find_func 7 0 [] (omega arith) (λ _. found_nil)
                  (λ silent. later ∙ ap found (silent_slot silent 7 1 (omega arith)))
                  (λ stays. absurd (cc (stays, single)))
                ∙ ap found (append-nil (front 0) ∙ sym (entries_single single))
            | inr several ↦
                find_func 7 0 (funcs_present 7 data_port bus slot 1) (omega arith)
                  (λ leaves. absurd (cc (leaves, several))) (λ _. later) (λ _. later)
                ∙ ap found (sym (entries_several several))
          ]

  -- The entries of the enumeration that are functions of their own.
  abbrev sought : List OoPciDevice → Option PciDev
  sought ds = found (select (is_separate data_port) ds)

  sought-append : (xs ys : List OoPciDevice) → sought (xs ++ ys) ≡ or_else (sought xs) (sought ys)
  sought-append xs ys = ap found (select-append (is_separate data_port) xs ys) ∙ first-append _ _

  module _ (pci : IsPci data_port) where
    find_slots_lem :
        (n bus slot : ℕ)
        → bus < 256
        → slot + n ≤ 32
        → find_slots n data_port vendor device bus slot ≡ sought (devs_present n data_port bus slot)
    unfolding find_slots devs_present first
    find_slots_lem zero bus slot b u = refl
    find_slots_lem (suc n) bus slot b u =
        ap (λ o. or_else o (find_slots n data_port vendor device bus (slot + 1)))
          (find_slot bus slot b (omega (arith, u)) pci)
        ∙ ap (or_else _) (find_slots_lem n bus (slot + 1) b (omega (arith, u)))
        ∙ sym (
            sought-append
              (if is_present data_port bus slot 0 then funcs_present 8 data_port bus slot 0 else [])
              (devs_present n data_port bus (slot + 1)))

    find_buses_lem :
        (n bus : ℕ)
        → bus + n ≤ 256
        → find_buses n data_port vendor device bus ≡ sought (buses_present n data_port bus)
    unfolding find_buses buses_present first
    find_buses_lem zero bus u = refl
    find_buses_lem (suc n) bus u =
        ap (λ o. or_else o (find_buses n data_port vendor device (bus + 1)))
          (find_slots_lem 32 bus 0 (omega (arith, u)) (omega arith))
        ∙ ap (or_else _) (find_buses_lem n (bus + 1) (omega (arith, u)))
        ∙ sym
            (sought-append (devs_present 32 data_port bus 0) (buses_present n data_port (bus + 1)))

-- How many functions there can be.
module _ (data_port : ℕ → ℕ) where
  length-funcs_present : (n bus dev func : ℕ) → length (funcs_present n data_port bus dev func) ≤ n
  unfolding funcs_present
  length-funcs_present zero bus dev func = omega arith
  length-funcs_present (suc n) bus dev func =
      elim (Bool-cases (is_present data_port bus dev func)) [
        | inl answers ↦ rw answers (omega (arith, length-funcs_present n bus dev (func + 1)))
        | inr silent ↦ rw silent (omega (arith, length-funcs_present n bus dev (func + 1)))
      ]

  length-devs_present : (n bus dev : ℕ) → length (devs_present n data_port bus dev) ≤ 8 * n
  unfolding devs_present
  length-devs_present zero bus dev = omega arith
  length-devs_present (suc n) bus dev =
      let later = length-devs_present n bus (dev + 1) in
      let here = length-funcs_present 8 bus dev 0 in
      elim (Bool-cases (is_present data_port bus dev 0)) [
        | inl answers ↦ rw answers (
            omega (
              arith,
              later,
              here,
              length-append (funcs_present 8 data_port bus dev 0)
                  (devs_present n data_port bus (dev + 1)),
            ))
        | inr silent ↦ rw silent (omega (arith, later))
      ]

  length-buses_present : (n bus : ℕ) → length (buses_present n data_port bus) ≤ 256 * n
  unfolding buses_present
  length-buses_present zero bus = omega arith
  length-buses_present (suc n) bus = omega (
    arith,
    length-buses_present n (bus + 1),
    length-devs_present 32 bus 0,
    length-append (devs_present 32 data_port bus 0) (buses_present n data_port (bus + 1)),
  )

-- The two walks agree, on a bus whose devices all have a function 0: what the network's search finds
-- is the first entry with these ids, and with the two bars of that function, in the drivers'
-- enumeration, where the latter has room for all, among the entries that are functions of their own:
-- those at function 0 and those of devices whose header tells of several functions. It finds nothing
-- if there is no such entry. A device with a single function may answer at every function.
pub pci_find_lem :
    (data_port : ℕ → ℕ) (vendor device max_devices : ℕ)
    → IsPci data_port
    → 65536 ≤ max_devices
    → pci_find data_port vendor device
      ≡ first data_port vendor device
          (select (is_separate data_port) (enumerate data_port max_devices))
unfolding pci_find
pci_find_lem data_port vendor device max_devices pci room =
    let all = buses_present 256 data_port 0 in
    find_buses_lem data_port vendor device pci 256 0 (omega arith)
    ∙ ap (sought data_port vendor device) (
        sym
          (take_fitting max_devices all (omega (arith, length-buses_present data_port 256 0, room)))
        ∙ sym (enumerate_lem data_port max_devices))
