-- ===== src/Acpi/Madt.antt =====
-- The walks over the records of the MADT.
use qnixx.Common.{
  ℕ, zero, suc, ◌+◌, ◌≤◌, ◌<◌, ◌≡◌, true, Bool-cases, inl, inr, some, List, [], ◌∷◌, length, ◌==◌,
  ltb, lt→ltb, if◌then◌else◌, arith,
}
use qnixx.Common.Word.{u16}
use qnixx.Libkern.Memory.{Memory}
use qnixx.Acpi.Tables.{madt_at, read32}
use qnixx.Acpi.{Acpi, parse_from, parse_madt, remap_from, acpi_remap_irq}

module _ (memory : Memory) where
  -- The records at the addresses `rs`, none of them empty, lie end to end from `cur` to `end`.
  abbrev pub Tiles : (rs : List ℕ) → (cur end : ℕ) → Type 0
  Tiles [] cur end = cur ≡ end
  Tiles (r ∷ rs) cur end =
      (r ≡ cur) × (0 < memory (cur + 1)) × Tiles rs (cur + memory (cur + 1)) end

  -- The interrupt that the first override of the line names, or the line itself.
  abbrev pub override : (rs : List ℕ) → (irq : ℕ) → ℕ
  override [] irq = irq
  override (r ∷ rs) irq =
      if memory r == 2
      then (if memory (r + 3) == irq then u16 (read32 memory (r + 4)) else override rs irq)
      else override rs irq

  -- The address in the last record of an I/O APIC, or the one that was there.
  abbrev pub last_ioapic : (rs : List ℕ) → (address : ℕ) → ℕ
  last_ioapic [] address = address
  last_ioapic (r ∷ rs) address =
      last_ioapic rs (if memory r == 1 then read32 memory (r + 4) else address)

  Tiles-length : (rs : List ℕ) (cur end : ℕ) → Tiles rs cur end → cur + length rs ≤ end
  Tiles-length [] cur end tiles = omega (arith, tiles)
  Tiles-length (r ∷ rs) cur end (here, some_byte, tiles) =
      omega (arith, some_byte, Tiles-length rs (cur + memory (cur + 1)) end tiles)

module _ (memory : Memory) (higher_half : ℕ) where
  pub remap_from-override :
      (fuel : ℕ) (rs : List ℕ) (cur end irq : ℕ)
      → length rs ≤ fuel
      → Tiles memory rs cur end
      → remap_from memory higher_half fuel cur end irq ≡ some (override memory rs irq)
  unfolding remap_from
  remap_from-override zero [] cur end irq enough tiles = ground (arith, tiles)
  remap_from-override (suc fuel) [] cur end irq enough tiles = ground (arith, tiles)
  remap_from-override zero (r ∷ rs) cur end irq enough tiles = absurd (omega (arith, enough))
  remap_from-override (suc fuel) (r ∷ rs) cur end irq enough (here, some_byte, tiles) =
      let next = cur + memory (cur + 1) in
      let more : cur < end = omega (arith, some_byte, Tiles-length memory rs next end tiles) in
      rw here (
        ground
          (arith, more, remap_from-override fuel rs next end irq (omega (arith, enough)) tiles))

  pub parse_from-last :
      (fuel : ℕ) (rs : List ℕ) (cur end : ℕ) (acpi : Acpi)
      → length rs ≤ fuel
      → Tiles memory rs cur end
      → parse_from memory higher_half fuel cur end acpi
        ≡ some (record acpi { g_ioapic_mmio_base = last_ioapic memory rs acpi.g_ioapic_mmio_base })
  unfolding parse_from
  parse_from-last zero [] cur end acpi enough tiles = ground (arith, tiles)
  parse_from-last (suc fuel) [] cur end acpi enough tiles = ground (arith, tiles)
  parse_from-last zero (r ∷ rs) cur end acpi enough tiles = absurd (omega (arith, enough))
  parse_from-last (suc fuel) (r ∷ rs) cur end acpi enough (here, some_byte, tiles) =
      let next = cur + memory (cur + 1) in
      let more : ltb cur end ≡ true =
        lt→ltb cur end (omega (arith, some_byte, Tiles-length memory rs next end tiles)) in
      elim (Bool-cases (memory cur == 1)) [
        | inl ioapic ↦
            rw (here, more, ioapic, parse_from)
              (parse_from-last fuel rs next end
                (record acpi { g_ioapic_mmio_base = read32 memory (cur + 4) })
                (omega (arith, enough)) tiles)
        | inr other ↦
            rw (here, more, other, parse_from)
              (parse_from-last fuel rs next end acpi (omega (arith, enough)) tiles)
      ]

  -- If the records of the MADT are not empty and lie end to end up to the end of the table,
  -- acpi_remap_irq returns within as many rounds as the table has bytes, with the interrupt that
  -- the first override of the line names, or the line itself.
  pub acpi_remap_irq-override :
      (acpi : Acpi) (rs : List ℕ) (irq : ℕ)
      → Tiles memory rs (acpi.madt + 44) (acpi.madt + (madt_at memory acpi.madt).header.length)
      → acpi_remap_irq memory higher_half ((madt_at memory acpi.madt).header.length) acpi irq
        ≡ some (override memory rs irq)
  unfolding acpi_remap_irq
  acpi_remap_irq-override acpi rs irq tiles =
      let n = (madt_at memory acpi.madt).header.length in
      remap_from-override n rs (acpi.madt + 44) (acpi.madt + n) irq
        (omega (arith, Tiles-length memory rs (acpi.madt + 44) (acpi.madt + n) tiles)) tiles

  -- The walk that looks for the I/O APIC ends on such a table too.
  pub parse_madt-returns :
      (acpi : Acpi) (rs : List ℕ)
      → Tiles memory rs (acpi.madt + 44) (acpi.madt + (madt_at memory acpi.madt).header.length)
      → parse_madt memory higher_half ((madt_at memory acpi.madt).header.length) acpi
        ≡ some (record acpi {
          g_lapic_mmio_base = read32 memory (acpi.madt + 36);
          g_ioapic_mmio_base = last_ioapic memory rs acpi.g_ioapic_mmio_base;
        })
  unfolding parse_madt
  parse_madt-returns acpi rs tiles =
      let n = (madt_at memory acpi.madt).header.length in
      parse_from-last n rs (acpi.madt + 44) (acpi.madt + n)
        (record acpi { g_lapic_mmio_base = read32 memory (acpi.madt + 36) })
        (omega (arith, Tiles-length memory rs (acpi.madt + 44) (acpi.madt + n) tiles)) tiles
