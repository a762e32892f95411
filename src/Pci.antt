-- ===== src/Pci.antt =====
-- The walks over the PCI bus: that of the drivers (drivers/pci.c, pci.h) and that of the network
-- (network-baremetal/src/nic_pci.c, include/nic_pci.h). What the data port answers, once an address
-- is written to the other, is an argument.
pub mod Address
pub mod Scan
pub mod Find
mod Examples
use operating_organism.Prelude.{
  ltb, ◌==◌, if◌then◌else◌, length, u8, u16, ℕ, zero, suc, ◌+◌, ◌*◌, ◌/◌, ◌^◌, bit_and, bit_or,
  ◌&&◌, Option, none, some, List, [], ◌∷◌, ◌++◌,
}

-- `OoPciDevice`
pub record OoPciDevice : Type 0 where
  pub bus : ℕ
  pub dev : ℕ
  pub func : ℕ
  pub vendor_id : ℕ
  pub device_id : ℕ
  pub class_code : ℕ
  pub subclass : ℕ

-- The address of `oo_pci_read_config_32`.
abbrev pub config_address : ℕ → ℕ → ℕ → ℕ → ℕ
config_address bus slot func offset =
    bit_or
      (bit_or (bit_or (bit_or (bus * 2 ^ 16) (slot * 2 ^ 11)) (func * 2 ^ 8)) (bit_and offset 0xFC))
      0x80000000

-- `oo_pci_read_config_32`
abbrev pub read_config_32 : (ℕ → ℕ) → ℕ → ℕ → ℕ → ℕ → ℕ
read_config_32 data_port bus slot func offset = data_port (config_address bus slot func offset)

-- A function that is found, from its two registers.
abbrev pub describe : (ℕ → ℕ) → ℕ → ℕ → ℕ → OoPciDevice
describe data_port bus dev func =
    let id_reg = read_config_32 data_port bus dev func 0x00 in
    let class_reg = read_config_32 data_port bus dev func 0x08 in
    record {
      bus = bus;
      dev = dev;
      func = func;
      vendor_id = u16 id_reg;
      device_id = u16 (id_reg / 2 ^ 16);
      class_code = u8 (class_reg / 2 ^ 24);
      subclass = u8 (class_reg / 2 ^ 16);
    }

-- The loop over the functions of a device, `n` of them from `func` on.
pub scan_funcs : ℕ → (ℕ → ℕ) → ℕ → ℕ → ℕ → ℕ → List OoPciDevice → List OoPciDevice
scan_funcs zero data_port max_devices bus dev func out = out
scan_funcs (suc n) data_port max_devices bus dev func out =
    let found =
      if u16 (read_config_32 data_port bus dev func 0x00) == 0xFFFF
      then out
      else (if ltb (length out) max_devices
          then out ++ (describe data_port bus dev func ∷ [])
          else out) in
    scan_funcs n data_port max_devices bus dev (func + 1) found

-- The loop over the devices of a bus.
pub scan_devs : ℕ → (ℕ → ℕ) → ℕ → ℕ → ℕ → List OoPciDevice → List OoPciDevice
scan_devs zero data_port max_devices bus dev out = out
scan_devs (suc n) data_port max_devices bus dev out =
    let found =
      if u16 (read_config_32 data_port bus dev 0 0x00) == 0xFFFF
      then out
      else scan_funcs 8 data_port max_devices bus dev 0 out in
    scan_devs n data_port max_devices bus (dev + 1) found

-- The loop over the buses.
pub scan_buses : ℕ → (ℕ → ℕ) → ℕ → ℕ → List OoPciDevice → List OoPciDevice
scan_buses zero data_port max_devices bus out = out
scan_buses (suc n) data_port max_devices bus out =
    scan_buses n data_port max_devices (bus + 1) (scan_devs 32 data_port max_devices bus 0 out)

-- `oo_pci_enumerate`: the devices that are written out, whose number is the result. A `max_devices`
-- below zero is 0 here: nothing is written.
unfoldable pub enumerate : (ℕ → ℕ) → ℕ → List OoPciDevice
unfolding scan_buses
enumerate data_port max_devices = scan_buses 256 data_port max_devices 0 []

-- `pci_dev_t`
pub record PciDev : Type 0 where
  pub bus : ℕ
  pub slot : ℕ
  pub func : ℕ
  pub vendor_id : ℕ
  pub device_id : ℕ
  pub bar0 : ℕ
  pub bar1 : ℕ

-- `pci_addr` and `pci_config_read32` of the network.
abbrev pub pci_addr : ℕ → ℕ → ℕ → ℕ → ℕ
pci_addr bus slot func off =
    bit_or (bit_or (bit_or (bit_or (2 ^ 31) (bus * 2 ^ 16)) (slot * 2 ^ 11)) (func * 2 ^ 8))
      (bit_and off 0xFC)

abbrev pub config_read32 : (ℕ → ℕ) → ℕ → ℕ → ℕ → ℕ → ℕ
config_read32 data_port bus slot func off = data_port (pci_addr bus slot func off)

-- The loop over the functions of a slot, `n` of them from `func` on.
pub find_funcs : ℕ → (ℕ → ℕ) → ℕ → ℕ → ℕ → ℕ → ℕ → Option PciDev
find_funcs zero data_port vendor device bus slot func = none
find_funcs (suc n) data_port vendor device bus slot func =
    let id = config_read32 data_port bus slot func 0x00 in
    let rest = find_funcs n data_port vendor device bus slot (func + 1) in
    if u16 id == 0xFFFF
    then rest
    else (if u16 id == vendor && u16 (id / 2 ^ 16) == device
        then some (record {
          bus = bus;
          slot = slot;
          func = func;
          vendor_id = u16 id;
          device_id = u16 (id / 2 ^ 16);
          bar0 = config_read32 data_port bus slot func 0x10;
          bar1 = config_read32 data_port bus slot func 0x14;
        })
        else (if func == 0 && bit_and (config_read32 data_port bus slot 0 0x0C / 2 ^ 16) 0x80 == 0
            then none
            else rest))

-- The first answer of two.
abbrev pub or_else {ℓ} : {A : Type ℓ} → Option A → Option A → Option A
or_else none o = o
or_else (some a) o = some a

-- The loops over the slots of a bus and over the buses.
pub find_slots : ℕ → (ℕ → ℕ) → ℕ → ℕ → ℕ → ℕ → Option PciDev
find_slots zero data_port vendor device bus slot = none
find_slots (suc n) data_port vendor device bus slot =
    or_else (find_funcs 8 data_port vendor device bus slot 0)
      (find_slots n data_port vendor device bus (slot + 1))

pub find_buses : ℕ → (ℕ → ℕ) → ℕ → ℕ → ℕ → Option PciDev
find_buses zero data_port vendor device bus = none
find_buses (suc n) data_port vendor device bus =
    or_else (find_slots 32 data_port vendor device bus 0)
      (find_buses n data_port vendor device (bus + 1))

-- `pci_find`
unfoldable pub pci_find : (ℕ → ℕ) → ℕ → ℕ → Option PciDev
unfolding find_buses
pci_find data_port vendor device = find_buses 256 data_port vendor device 0

-- `pci_config_write32` and `pci_enable_busmaster` of the network: what is written to the two ports,
-- 0xCF8 and 0xCFC, in order.
abbrev config_write32 : ℕ → ℕ → ℕ → ℕ → ℕ → List (ℕ × ℕ)
config_write32 bus slot func off val = (0xCF8, pci_addr bus slot func off) ∷ (0xCFC, val) ∷ []

unfoldable enable_busmaster : (ℕ → ℕ) → PciDev → List (ℕ × ℕ)
enable_busmaster data_port d =
    let cmd = config_read32 data_port d.bus d.slot d.func 0x04 in
    config_write32 d.bus d.slot d.func 0x04 (bit_or cmd 0x07)
