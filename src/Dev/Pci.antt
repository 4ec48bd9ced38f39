-- ===== src/Dev/Pci.antt =====
-- sys/dev/pci/pci.c: the PCI configuration space.
pub mod Address
pub mod Find
use qnixx.Common.{
  ℕ, ◌+◌, ◌*◌, ◌/◌, ◌^◌, Bool, true, false, ◌&&◌, Option, none, some, List, [], ◌∷◌, ◌==◌, ltb,
  if◌then◌else◌, bit_and, bit_or, update,
}
use qnixx.Common.Word.{u8, u16, u32}
use qnixx.Amd64.Io.{Hardware, Io, pure, ◌>>=◌, ◌>>◌, outl, inl, search_loop}

abbrev pub config_address : ℕ
config_address = 0xCF8

abbrev pub config_data : ℕ
config_data = 0xCFC

-- `pci_device_t`
pub record PciDevice : Type 0 where
  pub irq_line : ℕ
  pub bar : ℕ → ℕ
  pub bus : ℕ
  pub slot : ℕ
  pub func : ℕ
  pub msi_cap : ℕ

-- The array of the six base addresses, filled in order.
abbrev pub bars_of : (bar0 bar1 bar2 bar3 bar4 bar5 : ℕ) → ℕ → ℕ
bars_of bar0 bar1 bar2 bar3 bar4 bar5 =
    let low = update (update (update (λ _. 0) 0 bar0) 1 bar1) 2 bar2 in
    update (update (update low 3 bar3) 4 bar4) 5 bar5

-- The address that selects a word: bus, slot and function are 32-bit numbers.
unfoldable pub config_addr : (bus slot func offset : ℕ) → ℕ
config_addr bus slot func offset =
    bit_or
      (bit_or (bit_or (bit_or (2 ^ 31) (u32 (bus * 2 ^ 16))) (u32 (slot * 2 ^ 11)))
        (u32 (func * 2 ^ 8)))
      (bit_and offset 0xFC)

unfoldable pub config_writew : (bus slot func offset value : ℕ) → Io (Unit {0})
config_writew bus slot func offset value = do
  outl config_address (config_addr bus slot func offset)
  outl config_data value

-- `COMBINE_WORD`
abbrev pub combine_word : ℕ → ℕ → ℕ
combine_word low high = bit_or (high * 2 ^ 16) low

module _ (hw : Hardware) where
  unfoldable pub config_readw : (bus slot func offset : ℕ) → Io ℕ
  config_readw bus slot func offset = do
    outl config_address (config_addr bus slot func offset)
    word ← inl hw config_data
    pure (u16 (bit_and (word / 2 ^ (bit_and offset 2 * 8)) 0xFFFF))

  abbrev pub read_irq_line : (bus slot func : ℕ) → Io ℕ
  read_irq_line bus slot func = do v ← config_readw bus slot func 0x3C; pure (u8 (bit_and v 0xFF))

  abbrev pub read_vendor : (bus slot func : ℕ) → Io ℕ
  read_vendor bus slot func = config_readw bus slot func 0x0

  abbrev pub read_device_id : (bus slot func : ℕ) → Io ℕ
  read_device_id bus slot func = config_readw bus slot func 0x2

  abbrev pub read_class : (bus slot func : ℕ) → Io ℕ
  read_class bus slot func = do v ← config_readw bus slot func 0xA; pure (u8 (v / 2 ^ 8))

  abbrev pub read_subclass : (bus slot func : ℕ) → Io ℕ
  read_subclass bus slot func = do v ← config_readw bus slot func 0xA; pure (u8 (bit_and v 0xFF))

  abbrev pub read_status : (bus slot func : ℕ) → Io ℕ
  read_status bus slot func = config_readw bus slot func 0x6

  abbrev pub read_prog_if : (bus slot func : ℕ) → Io ℕ
  read_prog_if bus slot func = do v ← config_readw bus slot func 0x8; pure (u8 (v / 2 ^ 8))

  abbrev pub read_cap_ptr : (bus slot func : ℕ) → Io ℕ
  read_cap_ptr bus slot func = do v ← config_readw bus slot func 0x34; pure (u8 v)

  -- `get_bar0` to `get_bar5`: the two words from `offset` on.
  abbrev pub get_bar : ℕ → (bus slot func : ℕ) → Io ℕ
  get_bar offset bus slot func = do
    lo ← config_readw bus slot func offset
    hi ← config_readw bus slot func (offset + 2)
    pure (u32 (combine_word lo hi))

  unfoldable pub init_dev : (bus slot func : ℕ) → Io PciDevice
  init_dev bus slot func = do
    irq_line ← read_irq_line bus slot func
    bar0 ← get_bar 0x10 bus slot func
    bar1 ← get_bar 0x14 bus slot func
    bar2 ← get_bar 0x18 bus slot func
    bar3 ← get_bar 0x1C bus slot func
    bar4 ← get_bar 0x20 bus slot func
    bar5 ← get_bar 0x24 bus slot func
    pure (record {
      irq_line = irq_line;
      bar = bars_of bar0 bar1 bar2 bar3 bar4 bar5;
      bus = bus;
      slot = slot;
      func = func;
      msi_cap = 0;
    })

  unfoldable pub pci_enable_bus_mastering : PciDevice → Io (Unit {0})
  pci_enable_bus_mastering dev = do
    val ← config_readw dev.bus dev.slot dev.func 0x4
    config_writew dev.bus dev.slot dev.func 0x4 (u16 (bit_or (bit_or val (2 ^ 2)) (2 ^ 0)))

  -- One round of `pci_find`: the vendor is read only where the device ID fits.
  unfoldable pub probe : (vendor_id device_id bus slot func : ℕ) → Io (Option PciDevice)
  probe vendor_id device_id bus slot func = do
    device ← read_device_id bus slot func
    if device == device_id
        then (do
          vendor ← read_vendor bus slot func
          if vendor == vendor_id
              then (do dev ← init_dev bus slot func; pure (some dev))
              else pure none)
        else pure none

  -- `none` is NULL. The block of the descriptor, which `kmalloc` gives before the search and `kfree`
  -- takes back where it fails, has no part here, and a NULL block is not told from another.
  unfoldable pub pci_find : (vendor_id device_id : ℕ) → Io (Option PciDevice)
  pci_find vendor_id device_id = search_loop 5 0 (λ bus.
      search_loop 32 0 (λ slot. search_loop 8 0 (λ func. probe vendor_id device_id bus slot func)))

  -- One round of `pci_find_any`. `interface` is the bit pattern of a signed byte, which is compared
  -- with an unsigned one as an `int`: they are equal only where it is not negative.
  unfoldable pub probe_any :
      (class_id subclass_id interface bus slot func : ℕ) → Io (Option PciDevice)
  probe_any class_id subclass_id interface bus slot func = do
    class ← read_class bus slot func
    if class == class_id
        then (do
          subclass ← read_subclass bus slot func
          if subclass == subclass_id
              then (do
                prog_if ← read_prog_if bus slot func
                if (prog_if == interface) && ltb interface 0x80
                    then (do dev ← init_dev bus slot func; pure (some dev))
                    else pure none)
              else pure none)
        else pure none

  unfoldable pub pci_find_any : (class_id subclass_id interface : ℕ) → Io (Option PciDevice)
  pci_find_any class_id subclass_id interface = search_loop 5 0 (λ bus.
      search_loop 32 0
        (λ slot. search_loop 8 0 (λ func. probe_any class_id subclass_id interface bus slot func)))
