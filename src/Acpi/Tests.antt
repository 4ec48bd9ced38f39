-- ===== src/Acpi/Tests.antt =====
-- A MADT at address 0x1000.
use qnixx.Common.{refl, arith, some, [], ◌∷◌, ◌≡◌, ◌==◌, if◌then◌else◌}
use qnixx.Libkern.Memory.{Memory}
use qnixx.Acpi.{Acpi, acpi_remap_irq}
use qnixx.Acpi.Madt.{Tiles, override, acpi_remap_irq-override}

abbrev acpi : Acpi
acpi = record {
  rsdt = 0;
  madt = 0;
  rsdt_entry_count = 1;
  g_ioapic_mmio_base = 0;
  g_lapic_mmio_base = 0;
}

-- A MADT of 66 bytes at address 0x1000: an I/O APIC, and an override of line 0.
abbrev madt_memory : Memory
madt_memory a =
    if a == 0x1004
    then 66
    else (if a == 0x102C
        then 1
        else (if a == 0x102D
            then 12
            else (if a == 0x1033
                then 0xFE
                else (if a == 0x1038
                    then 2
                    else (if a == 0x1039 then 10 else (if a == 0x103C then 2 else 0))))))

abbrev madt_acpi : Acpi
madt_acpi = record acpi { madt = 0x1000 }

tiled : Tiles madt_memory (0x102C ∷ 0x1038 ∷ []) 0x102C 0x1042
tiled = (refl, omega arith, (refl, omega arith, refl))

acpi_remap_irq-override_example :
    acpi_remap_irq madt_memory 0 66 madt_acpi 0
    ≡ some (override madt_memory (0x102C ∷ 0x1038 ∷ []) 0)
acpi_remap_irq-override_example =
    acpi_remap_irq-override madt_memory 0 madt_acpi (0x102C ∷ 0x1038 ∷ []) 0 tiled
