-- ===== src/Acpi/Tables.antt =====
-- sys/include/acpi/def.h: the tables that the kernel reads. The structs are packed, and a number is
-- little-endian. A table at an address is what its bytes say.
use qnixx.Common.{ℕ, ◌+◌, ◌*◌, ◌/◌, ◌%◌, ◌^◌}
use qnixx.Libkern.Memory.{Memory}

abbrev pub read16 : Memory → ℕ → ℕ
read16 memory a = memory a + 2 ^ 8 * memory (a + 1)

abbrev pub read32 : Memory → ℕ → ℕ
read32 memory a = read16 memory a + 2 ^ 16 * read16 memory (a + 2)

abbrev pub read64 : Memory → ℕ → ℕ
read64 memory a = read32 memory a + 2 ^ 32 * read32 memory (a + 4)

-- `acpi_rsdp_t`
pub record AcpiRsdp : Type 0 where
  pub signature : ℕ → ℕ
  pub checksum : ℕ
  pub oemid : ℕ → ℕ
  pub rev : ℕ
  pub rsdtaddr : ℕ

abbrev pub rsdp_at : Memory → ℕ → AcpiRsdp
rsdp_at memory a = record {
  signature = λ i. memory (a + i);
  checksum = memory (a + 8);
  oemid = λ i. memory (a + 9 + i);
  rev = memory (a + 15);
  rsdtaddr = read32 memory (a + 16);
}

-- `acpi_header_t`, of 36 bytes
pub record AcpiHeader : Type 0 where
  pub signature : ℕ → ℕ
  pub length : ℕ
  pub revision : ℕ
  pub checksum : ℕ
  pub oem : ℕ → ℕ
  pub oem_table : ℕ → ℕ
  pub oem_revision : ℕ
  pub creator_id : ℕ
  pub creator_revision : ℕ

abbrev pub header_at : Memory → ℕ → AcpiHeader
header_at memory a = record {
  signature = λ k. memory (a + k);
  length = read32 memory (a + 4);
  revision = memory (a + 8);
  checksum = memory (a + 9);
  oem = λ k. memory (a + 10 + k);
  oem_table = λ k. memory (a + 16 + k);
  oem_revision = read32 memory (a + 24);
  creator_id = read32 memory (a + 28);
  creator_revision = read32 memory (a + 32);
}

-- `acpi_rsdt_t`
pub record AcpiRsdt : Type 0 where
  pub header : AcpiHeader
  pub tables : ℕ → ℕ

abbrev pub rsdt_at : Memory → ℕ → AcpiRsdt
rsdt_at memory a = record {
  header = header_at memory a;
  tables = λ i. read32 memory (a + 36 + 4 * i);
}

-- `acpi_gas_t`, of 12 bytes
pub record AcpiGas : Type 0 where
  pub address_space : ℕ
  pub bit_width : ℕ
  pub bit_offset : ℕ
  pub access_size : ℕ
  pub base : ℕ

abbrev pub gas_at : Memory → ℕ → AcpiGas
gas_at memory a = record {
  address_space = memory a;
  bit_width = memory (a + 1);
  bit_offset = memory (a + 2);
  access_size = memory (a + 3);
  base = read64 memory (a + 4);
}

-- `acpi_madt_t`, of 44 bytes
pub record AcpiMadt : Type 0 where
  pub header : AcpiHeader
  pub lapic_addr : ℕ
  pub flags : ℕ

abbrev pub madt_at : Memory → ℕ → AcpiMadt
madt_at memory a = record {
  header = header_at memory a;
  lapic_addr = read32 memory (a + 36);
  flags = read32 memory (a + 40);
}

-- `apic_header_t`
pub record ApicHeader : Type 0 where
  pub type : ℕ
  pub length : ℕ

abbrev pub apic_header_at : Memory → ℕ → ApicHeader
apic_header_at memory a = record { type = memory a; length = memory (a + 1) }

-- `io_apic_t`
pub record IoApic : Type 0 where
  pub header : ApicHeader
  pub io_apic_id : ℕ
  pub reserved : ℕ
  pub io_apic_addr : ℕ
  pub global_system_interrupt_base : ℕ

abbrev pub io_apic_at : Memory → ℕ → IoApic
io_apic_at memory a = record {
  header = apic_header_at memory a;
  io_apic_id = memory (a + 2);
  reserved = memory (a + 3);
  io_apic_addr = read32 memory (a + 4);
  global_system_interrupt_base = read32 memory (a + 8);
}

-- `apic_interrupt_override_t`
pub record ApicInterruptOverride : Type 0 where
  pub header : ApicHeader
  pub bus : ℕ
  pub source : ℕ
  pub interrupt : ℕ
  pub flags : ℕ

abbrev pub interrupt_override_at : Memory → ℕ → ApicInterruptOverride
interrupt_override_at memory a = record {
  header = apic_header_at memory a;
  bus = memory (a + 2);
  source = memory (a + 3);
  interrupt = read32 memory (a + 4);
  flags = read16 memory (a + 8);
}

-- `acpi_hpet_t`. The four bit fields are in one byte, from the lowest on.
pub record AcpiHpet : Type 0 where
  pub header : AcpiHeader
  pub hardware_rev_id : ℕ
  pub comparator_count : ℕ
  pub counter_size : ℕ
  pub reserved : ℕ
  pub legacy_replace : ℕ
  pub pci_vendor_id : ℕ
  pub base : AcpiGas
  pub hpet_id : ℕ
  pub minimum_tick : ℕ
  pub page_protection : ℕ

abbrev pub hpet_at : Memory → ℕ → AcpiHpet
hpet_at memory a = record {
  header = header_at memory a;
  hardware_rev_id = memory (a + 36);
  comparator_count = memory (a + 37) % 2 ^ 5;
  counter_size = memory (a + 37) / 2 ^ 5 % 2;
  reserved = memory (a + 37) / 2 ^ 6 % 2;
  legacy_replace = memory (a + 37) / 2 ^ 7 % 2;
  pci_vendor_id = read16 memory (a + 38);
  base = gas_at memory (a + 40);
  hpet_id = memory (a + 52);
  minimum_tick = read16 memory (a + 53);
  page_protection = memory (a + 55);
}
