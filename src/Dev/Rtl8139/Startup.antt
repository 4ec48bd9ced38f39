-- ===== src/Dev/Rtl8139/Startup.antt =====
-- `startup_nic` and `rtl8139_init`.
use qnixx.Common.{ℕ, zero, suc, ◌-◌, Option, none, some, if◌then◌else◌, bit_and, update}
use qnixx.Common.Word.{u8}
use qnixx.Amd64.Io.{Hardware, Trace, Io, pure, ◌>>=◌, ◌>>◌, outb, outw, outl}
use qnixx.Amd64.Idt.{Idt}
use qnixx.Dev.Pci.{PciDevice, pci_find, pci_enable_bus_mastering}
use qnixx.Dev.Rtl8139.{
  Nic, port, rx_buffer_size, packet_size_max, int_all, update_mac_addr, link_up, get_speed,
  wait_reset,
}

module _ (hw : Hardware) (kmalloc : Trace → ℕ → ℕ) (vmm_get_phys : ℕ → ℕ) where
  abbrev pub allocate : ℕ → Io ℕ
  allocate size t = (kmalloc t size, t)

  -- The transmit buffers from index `4 - left` on. Only a byte of the address is kept.
  unfoldable pub setup_txbufs : ℕ → Nic → Io Nic
  setup_txbufs zero nic = pure nic
  setup_txbufs (suc left) nic = do
    virt ← allocate packet_size_max
    setup_txbufs left
        (record nic { txbufs = update nic.txbufs (3 - left) (u8 (vmm_get_phys virt)) })

  -- After the reset.
  unfoldable pub configure : Nic → Io Nic
  configure nic = do
    outb (port nic 0x50) 0xC0
    outl (port nic 0x08) 0xFFFFFFFF
    outl (port nic 0x12) 0xFFFFFFFF
    outb (port nic 0x37) 0x0C
    outb (port nic 0x52) 0
    rxbuf ← allocate rx_buffer_size
    outl (port nic 0x30) (vmm_get_phys rxbuf)
    outl (port nic 0x62) 0x3100
    outb (port nic 0x58) 0x40
    outl (port nic 0x44) 0xF78E
    outl (port nic 0x40) 0x3000600
    ready ← setup_txbufs 4 (record nic { rxbuf = rxbuf })
    outb (port nic 0x50) 0x00
    outw (port nic 0x3C) int_all
    pure ready

  -- `none` is a card that stays in reset for `fuel` reads.
  unfoldable pub startup_nic : ℕ → Nic → Io (Option Nic)
  startup_nic fuel nic = do
    outb (port nic 0x37) 0x10
    done ← wait_reset hw fuel nic
    elim done as (λ _. Io (Option Nic)) [
      | none ↦ pure none
      | some _ ↦ (do ready ← configure nic; pure (some ready))
    ]

  -- The speed is read for the message where the link is up.
  unfoldable pub report_link : Nic → Io (Unit {0})
  report_link nic = do
    up ← link_up hw nic
    if up then (do speed ← get_speed hw nic; pure tt) else pure tt

  -- What is left once the card has been started, with `register_irq` for its handler an argument.
  unfoldable pub enlist :
      (register_irq : ℕ → Idt → Io (Option Idt)) → PciDevice → Idt → Nic → Io (Option (Nic × Idt))
  enlist register_irq dev idt ready = do
    report_link ready
    packet_buf ← allocate packet_size_max
    with_mac ← update_mac_addr hw 6 (record ready { packet_buf = packet_buf })
    registered ← register_irq dev.irq_line idt
    pure (elim registered [ none ↦ none | some idt' ↦ some (with_mac, idt') ])

  -- With `dev` the card that `pci_find` gives. The result is `none` where the card stays in reset,
  -- or its line cannot be registered.
  unfoldable pub start :
      (register_irq : ℕ → Idt → Io (Option Idt))
      → ℕ
      → Nic
      → PciDevice
      → Idt
      → Io (Option (Nic × Idt))
  start register_irq fuel nic dev idt = do
    pci_enable_bus_mastering hw dev
    started ← startup_nic fuel (record nic { iobase = bit_and (dev.bar 0) 0xFFFFFFFC })
    elim started as (λ _. Io (Option (Nic × Idt))) [
      | none ↦ pure none
      | some ready ↦ enlist register_irq dev idt ready
    ]

  unfoldable pub rtl8139_init :
      (register_irq : ℕ → Idt → Io (Option Idt)) → ℕ → Nic → Idt → Io (Option (Nic × Idt))
  rtl8139_init register_irq fuel nic idt = do
    found ← pci_find hw 0x10EC 0x8139
    elim found as (λ _. Io (Option (Nic × Idt))) [
      | none ↦ pure (some (nic, idt))
      | some dev ↦ start register_irq fuel nic dev idt
    ]
