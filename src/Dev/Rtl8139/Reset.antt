-- ===== src/Dev/Rtl8139/Reset.antt =====
-- The start of a card that comes out of its reset.
use qnixx.Common.{
  ℕ, zero, suc, ◌<◌, ◌≡◌, refl, Bool, false, Bool-cases, inl, inr, Option, none, some, none≢some,
  ◌∷◌, bit_and, arith,
}
use qnixx.Common.Word.{u8, u16}
use qnixx.Amd64.Io.{Hardware, Trace, Io, inp, pure}
use qnixx.Amd64.Idt.{Idt}
use qnixx.Dev.Pci.{PciDevice, pci_find}
use qnixx.Dev.Rtl8139.{Nic, port, is_set, wait_reset}
use qnixx.Dev.Rtl8139.Startup.{configure, startup_nic, enlist, start, rtl8139_init}

-- A number of reads of a byte from a port, one after the other.
abbrev pub reads : ℕ → ℕ → Trace → Trace
reads p zero t = t
reads p (suc k) t = reads p k (inp 8 p ∷ t)

-- What the next read of the command register says.
abbrev pub in_reset : Hardware → Nic → Trace → Bool
in_reset hw nic t = is_set (u8 (hw t (inp 8 (u16 (port nic 0x37))))) 0x10

-- At any time, one of the next `n` reads finds the card out of its reset.
abbrev pub Resets : (n : ℕ) → Hardware → Nic → Type 0
Resets n hw nic =
    (t : Trace) → (k : ℕ) × (k < n) × (in_reset hw nic (reads (u16 (port nic 0x37)) k t) ≡ false)

-- The state with the ports of a card.
abbrev pub at_ports : PciDevice → Nic → Nic
at_ports dev nic = record nic { iobase = bit_and (dev.bar 0) 0xFFFFFFFC }

module _ (hw : Hardware) where
  wait_reset-returns :
      (fuel k : ℕ) (nic : Nic) (t : Trace)
      → k < fuel
      → in_reset hw nic (reads (u16 (port nic 0x37)) k t) ≡ false
      → (wait_reset hw fuel nic t).0 ≡ some tt
  unfolding wait_reset
  wait_reset-returns zero k nic t enough out_of = absurd (omega (arith, enough))
  wait_reset-returns (suc fuel) zero nic t enough out_of = rw (out_of, wait_reset) refl
  wait_reset-returns (suc fuel) (suc k) nic t enough out_of =
      elim (Bool-cases (in_reset hw nic t)) [
        | inl waits ↦
            rw (waits, wait_reset)
              (wait_reset-returns fuel k nic (inp 8 (u16 (port nic 0x37)) ∷ t)
                (omega (arith, enough)) out_of)
        | inr done ↦ rw (done, wait_reset) refl
      ]

  module _ (kmalloc : Trace → ℕ → ℕ) (vmm_get_phys : ℕ → ℕ) where
    configured :
        (o : Option (Unit {0})) (nic : Nic) (t : Trace)
        → o ≡ some tt
        → (ready : Nic) × ((elim o as (λ _. Io (Option Nic)) [
          | none ↦ pure none
          | some _ ↦ (λ t. (
            some (configure hw kmalloc vmm_get_phys nic t).0,
            (configure hw kmalloc vmm_get_phys nic t).1,
          ))
        ]
              t).0
            ≡ some ready)
    configured none nic t done = absurd (none≢some done)
    configured (some _) nic t done = (_, refl)

    startup_nic-returns :
        (fuel : ℕ) (nic : Nic) (t : Trace)
        → Resets fuel hw nic
        → (ready : Nic) × ((startup_nic hw kmalloc vmm_get_phys fuel nic t).0 ≡ some ready)
    unfolding startup_nic
    startup_nic-returns fuel nic t resets =
        let (k, soon, out_of) = resets _ in
        configured _ nic _ (wait_reset-returns fuel k nic _ soon out_of)

    module _ (register_irq : ℕ → Idt → Io (Option Idt)) where
      listed :
          (o : Option Idt) (nic : Nic) (idt' : Idt)
          → o ≡ some idt'
          → (net : Nic × Idt) × (◌≡◌ {A = Option (Nic × Idt)}
              (elim o [ none ↦ none | some i ↦ some (nic, i) ])
              (some net))
      listed none nic idt' done = absurd (none≢some done)
      listed (some i) nic idt' done = (_, refl)

      enlist-returns :
          (dev : PciDevice) (idt : Idt) (ready : Nic) (t : Trace)
          → ((t : Trace) → (idt' : Idt) × ((register_irq dev.irq_line idt t).0 ≡ some idt'))
          → (net : Nic × Idt) × ((enlist hw kmalloc vmm_get_phys register_irq dev idt ready t).0
              ≡ some net)
      unfolding enlist
      enlist-returns dev idt ready t registers =
          let (idt', done) = registers _ in listed _ _ idt' done

      resumed-returns :
          (o : Option Nic) (ready : Nic) (dev : PciDevice) (idt : Idt) (t : Trace)
          → ((t : Trace) → (idt' : Idt) × ((register_irq dev.irq_line idt t).0 ≡ some idt'))
          → o ≡ some ready
          → (net : Nic × Idt) × ((elim o as (λ _. Io (Option (Nic × Idt))) [
            | none ↦ pure none
            | some ready ↦ enlist hw kmalloc vmm_get_phys register_irq dev idt ready
          ]
                t).0
              ≡ some net)
      resumed-returns none ready dev idt t registers done = absurd (none≢some done)
      resumed-returns (some nic) ready dev idt t registers done =
          enlist-returns dev idt nic t registers

      start-returns :
          (fuel : ℕ) (nic : Nic) (dev : PciDevice) (idt : Idt) (t : Trace)
          → Resets fuel hw (at_ports dev nic)
          → ((t : Trace) → (idt' : Idt) × ((register_irq dev.irq_line idt t).0 ≡ some idt'))
          → (net : Nic × Idt) × ((start hw kmalloc vmm_get_phys register_irq fuel nic dev idt t).0
              ≡ some net)
      unfolding start
      start-returns fuel nic dev idt t resets registers =
          let (ready, done) = startup_nic-returns fuel (at_ports dev nic) _ resets in
          resumed-returns _ ready dev idt _ registers done

      found-returns :
          (o : Option PciDevice) (fuel : ℕ) (nic : Nic) (idt : Idt) (t : Trace)
          → ((dev : PciDevice) → o ≡ some dev → Resets fuel hw (at_ports dev nic))
          → ((dev : PciDevice) (t : Trace)
              → (idt' : Idt) × ((register_irq dev.irq_line idt t).0 ≡ some idt'))
          → (net : Nic × Idt) × ((elim o as (λ _. Io (Option (Nic × Idt))) [
            | none ↦ pure (some (nic, idt))
            | some dev ↦ start hw kmalloc vmm_get_phys register_irq fuel nic dev idt
          ]
                t).0
              ≡ some net)
      found-returns none fuel nic idt t resets registers = (_, refl)
      found-returns (some dev) fuel nic idt t resets registers =
          start-returns fuel nic dev idt t (resets dev refl) (registers dev)

      -- With no card, or one that comes out of its reset and whose line can be registered,
      -- rtl8139_init returns.
      pub rtl8139_init-returns :
          (fuel : ℕ) (nic : Nic) (idt : Idt) (t : Trace)
          → ((dev : PciDevice)
              → (pci_find hw 0x10EC 0x8139 t).0 ≡ some dev
              → Resets fuel hw (at_ports dev nic))
          → ((dev : PciDevice) (t : Trace)
              → (idt' : Idt) × ((register_irq dev.irq_line idt t).0 ≡ some idt'))
          → (net : Nic × Idt) × ((rtl8139_init hw kmalloc vmm_get_phys register_irq fuel nic idt
                t).0
              ≡ some net)
      unfolding rtl8139_init
      rtl8139_init-returns fuel nic idt t resets registers =
          found-returns (pci_find hw 0x10EC 0x8139 t).0 fuel nic idt _ resets registers
