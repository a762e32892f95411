-- ===== src/Pci/Address.antt =====
-- The two ways to write an address, and what the address says.
use operating_organism.Prelude.{ℕ, ◌+◌, ◌*◌, ◌^◌, ◌<◌, bit_and, bit_or, ◌≡◌, sym, ap, ◌∙◌, arith}
use operating_organism.Prelude.Bits.{bit_or_fields, bit_or_top}
use operating_organism.Pci.{config_address, pci_addr}

-- The fields of an address, which do not overlap.
abbrev pub fields : ℕ → ℕ → ℕ → ℕ → ℕ
fields bus slot func low = bus * 2 ^ 16 + slot * 2 ^ 11 + func * 2 ^ 8 + low

-- A field is joined to those above it.
join : (k q r x : ℕ) → x ≡ q * 2 ^ k → r < 2 ^ k → bit_or x r ≡ q * 2 ^ k + r
join k q r x e fits = ap (λ y. bit_or y r) e ∙ bit_or_fields k q r fits

module _ (bus slot func low : ℕ) (b : bus < 256) (s : slot < 32) (f : func < 8)
    (l : low < 256) where
  -- The four fields below a top that is 0 or 2^15, in units of the bus.
  joined :
      (top x : ℕ)
      → x ≡ (top + bus) * 2 ^ 16
      → bit_or (bit_or (bit_or x (slot * 2 ^ 11)) (func * 2 ^ 8)) low
        ≡ top * 2 ^ 16 + fields bus slot func low
  joined top x e =
      let first = join 16 (top + bus) (slot * 2 ^ 11) x e (omega (arith, s)) in
      let second =
        join 11 ((top + bus) * 32 + slot) (func * 2 ^ 8) (bit_or x (slot * 2 ^ 11))
          (omega (arith, first)) (omega (arith, f)) in
      let third =
        join 8 (((top + bus) * 32 + slot) * 8 + func) low
          (bit_or (bit_or x (slot * 2 ^ 11)) (func * 2 ^ 8)) (omega (arith, second))
          (omega (arith, l)) in
      omega (arith, third)

  pub drivers_address :
      bit_or (bit_or (bit_or (bit_or (bus * 2 ^ 16) (slot * 2 ^ 11)) (func * 2 ^ 8)) low) 0x80000000
      ≡ 2 ^ 31 + fields bus slot func low
  drivers_address =
      let below : bit_or (bit_or (bit_or (bus * 2 ^ 16) (slot * 2 ^ 11)) (func * 2 ^ 8)) low
          ≡ fields bus slot func low =
        omega (arith, joined 0 (bus * 2 ^ 16) (omega arith)) in
      ap (λ y. bit_or y 0x80000000) below
      ∙ omega (arith, bit_or_top 31 (fields bus slot func low) (omega (arith, b, s, f, l)))

  network_address :
      bit_or (bit_or (bit_or (bit_or (2 ^ 31) (bus * 2 ^ 16)) (slot * 2 ^ 11)) (func * 2 ^ 8)) low
      ≡ 2 ^ 31 + fields bus slot func low
  network_address =
      let upper = join 31 1 (bus * 2 ^ 16) (2 ^ 31) (omega arith) (omega (arith, b)) in
      omega (arith, joined (2 ^ 15) (bit_or (2 ^ 31) (bus * 2 ^ 16)) (omega (arith, upper)))

-- Both write the same address for a function and a register, for the registers that are read.
pub addresses_agree :
    (bus slot func offset : ℕ)
    → bus < 256
    → slot < 32
    → func < 8
    → bit_and offset 0xFC < 256
    → pci_addr bus slot func offset ≡ config_address bus slot func offset
addresses_agree bus slot func offset b s f l =
    network_address bus slot func (bit_and offset 0xFC) b s f l
    ∙ sym (drivers_address bus slot func (bit_and offset 0xFC) b s f l)
