-- ===== src/Dev/Pci/Find.antt =====
-- The searches of the bus, on a configuration space that holds its values.
use qnixx.Common.{
  ℕ, ◌+◌, ◌*◌, ◌/◌, ◌^◌, ◌<◌, ◌≡◌, refl, sym, ◌∙◌, ap, Bool, true, false, ◌&&◌, Option, none, some,
  none≢some, some_eq, Bool-cases, inl, inr, ◌∷◌, ◌==◌, if◌then◌else◌, bit_and, arith,
}
use qnixx.Common.Word.{u8, u16, u32}
use qnixx.Amd64.Io.{Hardware, Trace, out, inp}
use qnixx.Amd64.Io.Search.{first, search_loop-first, first-some, first-none}
use qnixx.Dev.Pci.{
  PciDevice, config_addr, config_readw, config_address, config_data, combine_word, bars_of,
  init_dev, probe, pci_find,
}

-- The data port answers with the word whose address was written last.
pub record ConfigSpace (hw : Hardware) (space : ℕ → ℕ) : Type 0 where
  pub answers :
      (t : Trace) (a : ℕ) → hw (out 32 config_address a ∷ t) (inp 32 config_data) ≡ space a

if-none :
    {A : Type 0} {b : Bool} (a : A)
    → ◌≡◌ {A = Option A} (if b then some a else none) none
    → b ≡ false
if-none {b = true} a h = elim (none≢some (sym h)) [ ]
if-none {b = false} a h = refl

if-some :
    {A : Type 0} {b : Bool} {a c : A}
    → ◌≡◌ {A = Option A} (if b then some a else none) (some c)
    → (b ≡ true) × (a ≡ c)
if-some {b = true} h = (refl, some_eq h)
if-some {b = false} h = elim (none≢some h) [ ]

module _ (space : ℕ → ℕ) where
  -- The 16 bits at an offset of a function's configuration.
  abbrev pub word_at : (bus slot func offset : ℕ) → ℕ
  word_at bus slot func offset = u16 (
      bit_and (u32 (space (u32 (config_addr bus slot func offset))) / 2 ^ (bit_and offset 2 * 8))
        0xFFFF)

  abbrev pub bar_at : ℕ → (bus slot func : ℕ) → ℕ
  bar_at offset bus slot func =
      u32 (combine_word (word_at bus slot func offset) (word_at bus slot func (offset + 2)))

  -- The device that stands in the configuration space.
  abbrev pub device_at : (bus slot func : ℕ) → PciDevice
  device_at bus slot func = record {
    irq_line = u8 (bit_and (word_at bus slot func 0x3C) 0xFF);
    bar =
        bars_of (bar_at 0x10 bus slot func) (bar_at 0x14 bus slot func) (bar_at 0x18 bus slot func)
          (bar_at 0x1C bus slot func) (bar_at 0x20 bus slot func) (bar_at 0x24 bus slot func);
    bus = bus;
    slot = slot;
    func = func;
    msi_cap = 0;
  }

  abbrev pub fits : (vendor_id device_id bus slot func : ℕ) → Bool
  fits vendor_id device_id bus slot func =
      (word_at bus slot func 0x2 == device_id) && (word_at bus slot func 0x0 == vendor_id)

  module _ (hw : Hardware) (config : ConfigSpace hw space) where
    pub config_readw_lem :
        (bus slot func offset : ℕ) (t : Trace)
        → (config_readw hw bus slot func offset t).0 ≡ word_at bus slot func offset
    unfolding config_readw
    config_readw_lem bus slot func offset t =
        ap (λ (v : ℕ). u16 (bit_and (u32 v / 2 ^ (bit_and offset 2 * 8)) 0xFFFF))
          (config.answers t (u32 (config_addr bus slot func offset)))

    init_dev_lem :
        (bus slot func : ℕ) (t : Trace) → (init_dev hw bus slot func t).0 ≡ device_at bus slot func
    unfolding init_dev
    init_dev_lem bus slot func t = simp config_readw_lem

    probe_lem :
        (vendor_id device_id bus slot func : ℕ) (t : Trace)
        → (probe hw vendor_id device_id bus slot func t).0 ≡ (
            if fits vendor_id device_id bus slot func then some (device_at bus slot func) else none)
    unfolding probe
    probe_lem vendor_id device_id bus slot func t =
        elim (Bool-cases (word_at bus slot func 0x2 == device_id)) [
          | inr other ↦ rw (config_readw_lem bus slot func 0x2 t, other) refl
          | inl equal ↦
              let t' = (config_readw hw bus slot func 0x2 t).1 in
              elim (Bool-cases (word_at bus slot func 0x0 == vendor_id)) [
                | inr other ↦
                    rw
                      (
                        config_readw_lem bus slot func 0x2 t,
                        equal,
                        config_readw_lem bus slot func 0x0 t',
                        other,
                      )
                      refl
                | inl also ↦
                    let t'' = (config_readw hw bus slot func 0x0 t').1 in
                    rw
                      (
                        config_readw_lem bus slot func 0x2 t,
                        equal,
                        config_readw_lem bus slot func 0x0 t',
                        also,
                      )
                      (ap (λ (d : PciDevice). some d) (init_dev_lem bus slot func t''))
              ]
        ]

    -- The device that `pci_find` returns, over the configuration space.
    abbrev pub found_at : (vendor_id device_id : ℕ) → Option PciDevice
    found_at vendor_id device_id = first 5 0 (λ bus. first 32 0 (λ slot. first 8 0 (λ func.
        if fits vendor_id device_id bus slot func then some (device_at bus slot func) else none)))

    pub pci_find-found_at :
        (vendor_id device_id : ℕ) (t : Trace)
        → (pci_find hw vendor_id device_id t).0 ≡ found_at vendor_id device_id
    unfolding pci_find
    pci_find-found_at vendor_id device_id t =
        search_loop-first 5 0 _ _
          (λ bus. search_loop-first 32 0 _ _ (λ slot.
            search_loop-first 8 0 _ _ (λ func. probe_lem vendor_id device_id bus slot func)))
          t

    -- On a configuration space that holds its values, a device that pci_find returns is the one
    -- that stands there at some bus below 5, slot below 32 and function below 8 with the vendor
    -- and device ID that were asked for, with its interrupt line and its six base addresses.
    pub pci_find-some :
        (vendor_id device_id : ℕ) (t : Trace) (dev : PciDevice)
        → (pci_find hw vendor_id device_id t).0 ≡ some dev
        → (bus : ℕ) × (slot : ℕ) × (func : ℕ) × (bus < 5)
          × (slot < 32)
          × (func < 8)
          × (fits vendor_id device_id bus slot func ≡ true)
          × (dev ≡ device_at bus slot func)
    pci_find-some vendor_id device_id t dev h =
        let (bus, _, b, at_bus) =
          first-some 5 0 _ (sym (pci_find-found_at vendor_id device_id t) ∙ h) in
        let (slot, _, s, at_slot) = first-some 32 0 _ at_bus in
        let (func, _, f, at_func) = first-some 8 0 _ at_slot in
        let (fitting, same) = if-some at_func in
        (bus, slot, func, omega arith, omega arith, omega arith, fitting, sym same)

    -- On a configuration space that holds its values, if pci_find returns NULL, then no function
    -- below 8 of a slot below 32 of a bus below 5 has the vendor and device ID that were asked
    -- for.
    pub pci_find-none :
        (vendor_id device_id : ℕ) (t : Trace) (bus slot func : ℕ)
        → (pci_find hw vendor_id device_id t).0 ≡ none
        → bus < 5
        → slot < 32
        → func < 8
        → fits vendor_id device_id bus slot func ≡ false
    pci_find-none vendor_id device_id t bus slot func h b s f =
        let at_bus =
          first-none 5 0 _ (sym (pci_find-found_at vendor_id device_id t) ∙ h) bus (omega arith)
            b in
        let at_slot = first-none 32 0 _ at_bus slot (omega arith) s in
        if-none _ (first-none 8 0 _ at_slot func (omega arith) f)
