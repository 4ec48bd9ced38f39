-- ===== src/Acpi.antt =====
-- sys/acpi/acpi.c: the search of the tables that the firmware leaves. Memory is bytes. An address
-- 0 is NULL.
pub mod Tables
pub mod Checksum
pub mod Madt
mod Tests
use qnixx.Common.{
  ℕ, zero, suc, ◌+◌, ◌-◌, ◌*◌, ◌/◌, ◌%◌, ◌^◌, Bool, true, false, Option, none, some, ◌==◌, ltb,
  if◌then◌else◌,
}
use qnixx.Common.Word.{u8, u16, u32, u64}
use qnixx.Libkern.Memory.{Memory}
use qnixx.Libkern.String.{memcmp}
use qnixx.Acpi.Tables.{
  rsdp_at, header_at, rsdt_at, madt_at, apic_header_at, io_apic_at, interrupt_override_at,
}

-- `sum += ((char*)header)[i]`, for the bytes from `a` on.
unfoldable pub sum_from : Memory → ℕ → ℕ → ℕ → ℕ
sum_from memory zero a sum = sum
sum_from memory (suc n) a sum = sum_from memory n (a + 1) (u8 (sum + memory a))

unfoldable pub do_checksum : Memory → ℕ → Bool
do_checksum memory header = sum_from memory (header_at memory header).length header 0 % 0x100 == 0

-- The file's variables.
pub record Acpi : Type 0 where
  pub rsdt : ℕ
  pub madt : ℕ
  pub rsdt_entry_count : ℕ
  pub g_ioapic_mmio_base : ℕ
  pub g_lapic_mmio_base : ℕ

module _ (memory : Memory) (higher_half : ℕ) where
  -- The entries from index `i` on. `n` is the length of the signature that is looked for.
  unfoldable pub query_from : ℕ → (rsdt : ℕ) → (query : Memory) → (n : ℕ) → ℕ → ℕ
  query_from zero rsdt query n i = 0
  query_from (suc left) rsdt query n i =
      let current = u64 ((rsdt_at memory rsdt).tables i + higher_half) in
      let rest = query_from left rsdt query n (i + 1) in
      if memcmp (header_at memory current).signature query n == 0
      then (if do_checksum memory current then current else 0)
      else rest

  unfoldable pub acpi_query : Acpi → (query : Memory) → (n : ℕ) → ℕ
  acpi_query acpi query n = query_from acpi.rsdt_entry_count acpi.rsdt query n 0

  -- `while (cur < end)` of `parse_madt`, on fuel: a record of length 0 is looked at for ever.
  unfoldable pub parse_from : ℕ → (cur end : ℕ) → Acpi → Option Acpi
  parse_from zero cur end acpi = if ltb cur end then none else some acpi
  parse_from (suc fuel) cur end acpi =
      let found =
        if (apic_header_at memory cur).type == 1
        then record acpi { g_ioapic_mmio_base = (io_apic_at memory cur).io_apic_addr }
        else acpi in
      let rest = parse_from fuel (cur + (apic_header_at memory cur).length) end found in
      if ltb cur end then rest else some acpi

  unfoldable pub parse_madt : ℕ → Acpi → Option Acpi
  parse_madt fuel acpi =
      parse_from fuel (acpi.madt + 44) (acpi.madt + (madt_at memory acpi.madt).header.length)
        (record acpi { g_lapic_mmio_base = (madt_at memory acpi.madt).lapic_addr })

  unfoldable pub remap_from : ℕ → (cur end irq : ℕ) → Option ℕ
  remap_from zero cur end irq = if ltb cur end then none else some irq
  remap_from (suc fuel) cur end irq =
      let rest = remap_from fuel (cur + (apic_header_at memory cur).length) end irq in
      if ltb cur end
      then (if (apic_header_at memory cur).type == 2
          then (if (interrupt_override_at memory cur).source == irq
              then some (u16 (interrupt_override_at memory cur).interrupt)
              else rest)
          else rest)
      else some irq

  unfoldable pub acpi_remap_irq : ℕ → Acpi → ℕ → Option ℕ
  acpi_remap_irq fuel acpi irq =
      remap_from fuel (acpi.madt + 44) (acpi.madt + (madt_at memory acpi.madt).header.length) irq

  -- `rsdp` is the address that the boot loader gives. `none` is the
  -- failed assertion, or a table that is not left.
  unfoldable pub acpi_init : ℕ → (rsdp : ℕ) → (apic : Memory) → Acpi → Option Acpi
  acpi_init fuel rsdp apic acpi =
      let rsdt = u64 ((rsdp_at memory rsdp).rsdtaddr + higher_half) in
      let count = u64 ((rsdt_at memory rsdt).header.length + 2 ^ 64 - 36) / 4 in
      let found = record acpi { rsdt = rsdt; rsdt_entry_count = count } in
      let madt = acpi_query found apic 4 in
      if madt == 0 then none else parse_madt fuel (record found { madt = madt })
