-- ===== src/Pci/Examples.antt =====
-- The walks over a bus with one card, in slot 3 of bus 0.
use operating_organism.Prelude.{
  ◌==◌, if◌then◌else◌, take, select, ℕ, ◌+◌, ◌*◌, ◌/◌, ◌%◌, ◌^◌, ◌<◌, ◌≡◌, refl, sym, ◌∙◌, true,
  arith,
}
use operating_organism.Pci.{enumerate, pci_find}
use operating_organism.Pci.Address.{drivers_address}
use operating_organism.Pci.Scan.{is_present, buses_present, enumerate_lem}
use operating_organism.Pci.Find.{IsPci, is_single, is_separate, first, pci_find_lem}

-- The card has a single function, answers at all eight, and its header says so.
abbrev one_card : ℕ → ℕ
one_card a =
    if a / 2 ^ 11 == 2 ^ 20 + 3 then (if a % 2 ^ 8 == 0x0C then 0 else 0x100E8086) else 0xFFFFFFFF

one_card_single : is_single one_card 0 3 ≡ true
one_card_single = refl

card_at :
    (bus slot func : ℕ)
    → bus < 256
    → slot < 32
    → func < 8
    → is_present one_card bus slot func ≡ (bus * 32 + slot == 3)
card_at bus slot func b s f =
    let e = drivers_address bus slot func 0 b s f (omega arith) in rw e (ground arith)

one_card-IsPci : IsPci one_card
one_card-IsPci = record {
  alone = λ bus slot func b s f silent.
      card_at bus slot func b s f ∙ sym (card_at bus slot 0 b s (omega arith)) ∙ silent;
}

pci_find_example :
    pci_find one_card 0x8086 0x100E
    ≡ first one_card 0x8086 0x100E (select (is_separate one_card) (enumerate one_card 65536))
pci_find_example = pci_find_lem one_card 0x8086 0x100E 65536 one_card-IsPci (omega arith)

enumerate_example : enumerate one_card 4 ≡ take 4 (buses_present 256 one_card 0)
enumerate_example = enumerate_lem one_card 4
