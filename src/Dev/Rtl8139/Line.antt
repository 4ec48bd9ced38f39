-- ===== src/Dev/Rtl8139/Line.antt =====
-- Which line the start of the card registers.
use qnixx.Common.{ℕ, ◌≡◌, sym, refl, ap, Option, ◌⊎◌, some_pair, none, some, none≢some, inl, inr}
use qnixx.Amd64.Io.{Hardware, Trace, Io, pure}
use qnixx.Amd64.Idt.{Idt}
use qnixx.Dev.Pci.{PciDevice, pci_find}
use qnixx.Dev.Rtl8139.{Nic}
use qnixx.Dev.Rtl8139.Startup.{enlist, start, rtl8139_init}

module _ (hw : Hardware) (kmalloc : Trace → ℕ → ℕ) (vmm_get_phys : ℕ → ℕ)
    (register_irq : ℕ → Idt → Io (Option Idt)) where
  paired :
      (o : Option Idt) (nic nic' : Nic) (idt' : Idt)
      → ◌≡◌ {A = Option (Nic × Idt)}
          (elim o [ none ↦ none | some i ↦ some (nic, i) ])
          (some (nic', idt'))
      → o ≡ some idt'
  paired none nic nic' idt' e = absurd (none≢some e)
  paired (some i) nic nic' idt' e = ap some (some_pair e).1

  enlist-registers :
      (nic nic' : Nic) (dev : PciDevice) (idt idt' : Idt) (t : Trace)
      → (enlist hw kmalloc vmm_get_phys register_irq dev idt nic t).0 ≡ some (nic', idt')
      → (t1 : Trace) × ((register_irq dev.irq_line idt t1).0 ≡ some idt')
  unfolding enlist
  enlist-registers nic nic' dev idt idt' t done = (_, paired _ _ nic' idt' done)

  resumed :
      (o : Option Nic) (nic' : Nic) (dev : PciDevice) (idt idt' : Idt) (t : Trace)
      → (elim o as (λ _. Io (Option (Nic × Idt))) [
        | none ↦ pure none
        | some ready ↦ enlist hw kmalloc vmm_get_phys register_irq dev idt ready
      ]
          t).0
        ≡ some (nic', idt')
      → (t1 : Trace) × ((register_irq dev.irq_line idt t1).0 ≡ some idt')
  resumed none nic' dev idt idt' t done = absurd (none≢some done)
  resumed (some ready) nic' dev idt idt' t done = enlist-registers ready nic' dev idt idt' t done

  start-registers :
      (fuel : ℕ) (nic nic' : Nic) (dev : PciDevice) (idt idt' : Idt) (t : Trace)
      → (start hw kmalloc vmm_get_phys register_irq fuel nic dev idt t).0 ≡ some (nic', idt')
      → (t1 : Trace) × ((register_irq dev.irq_line idt t1).0 ≡ some idt')
  unfolding start
  start-registers fuel nic nic' dev idt idt' t done = resumed _ nic' dev idt idt' _ done

  found_cases :
      (o : Option PciDevice) (fuel : ℕ) (nic nic' : Nic) (idt idt' : Idt) (t : Trace)
      → (elim o as (λ _. Io (Option (Nic × Idt))) [
        | none ↦ pure (some (nic, idt))
        | some dev ↦ start hw kmalloc vmm_get_phys register_irq fuel nic dev idt
      ]
          t).0
        ≡ some (nic', idt')
      → (idt' ≡ idt)
        ⊎ ((dev : PciDevice) × (o ≡ some dev)
            × (t1 : Trace) × ((register_irq dev.irq_line idt t1).0 ≡ some idt'))
  found_cases none fuel nic nic' idt idt' t done = inl (sym (some_pair done).1)
  found_cases (some dev) fuel nic nic' idt idt' t done =
      let (t1, e) = start-registers fuel nic nic' dev idt idt' t done in inr (dev, refl, t1, e)

  -- The table stays as it is where no card is found, and else the line of the card is registered.
  pub rtl8139_init-registers :
      (fuel : ℕ) (nic nic' : Nic) (idt idt' : Idt) (t : Trace)
      → (rtl8139_init hw kmalloc vmm_get_phys register_irq fuel nic idt t).0 ≡ some (nic', idt')
      → (idt' ≡ idt)
        ⊎ ((dev : PciDevice) × ((pci_find hw 0x10EC 0x8139 t).0 ≡ some dev)
            × (t1 : Trace) × ((register_irq dev.irq_line idt t1).0 ≡ some idt'))
  unfolding rtl8139_init
  rtl8139_init-registers fuel nic nic' idt idt' t done =
      found_cases (pci_find hw 0x10EC 0x8139 t).0 fuel nic nic' idt idt' _ done
