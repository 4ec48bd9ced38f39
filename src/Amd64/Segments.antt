-- ===== src/Amd64/Segments.antt =====
-- sys/amd64/gdt.c, sys/amd64/tss.c and their headers: the segment descriptors, and the task state.
pub mod TaskState
use qnixx.Common.{ℕ, ◌+◌, ◌-◌, ◌*◌, ◌/◌, ◌^◌, List, [], ◌∷◌, bit_and}
use qnixx.Common.Word.{u32, u64}

-- `gdt_desc_t`
pub record GdtDesc : Type 0 where
  pub limit : ℕ
  pub base_low : ℕ
  pub base_mid : ℕ
  pub access : ℕ
  pub granularity : ℕ
  pub base_hi : ℕ

-- A descriptor with base 0, as all of the table are.
abbrev flat : (limit access granularity : ℕ) → GdtDesc
flat limit access granularity = record {
  limit = limit;
  base_low = 0;
  base_mid = 0;
  access = access;
  granularity = granularity;
  base_hi = 0;
}

abbrev pub g_gdt : List GdtDesc
g_gdt =
    flat 0 0 0
    ∷ flat 0xFFFF 0x9A 0x00
    ∷ flat 0xFFFF 0x92 0x00
    ∷ flat 0xFFFF 0x9A 0xCF
    ∷ flat 0xFFFF 0x92 0xCF
    ∷ flat 0x0000 0x9A 0x20
    ∷ flat 0x0000 0x92 0x00
    ∷ flat 0x0000 0xFA 0xAF
    ∷ flat 0x0000 0xF2 0x00
    ∷ flat 0 0 0
    ∷ flat 0 0 0
    ∷ flat 0 0 0
    ∷ flat 0 0 0
    ∷ []

-- `GDT_TSS`: the task state's descriptor takes the 16 bytes of two entries.
abbrev pub gdt_tss : ℕ
gdt_tss = 0x9

-- `sizeof(g_gdt)` and `sizeof(tss_entry_t)`
abbrev pub gdt_size : ℕ
gdt_size = 104

abbrev pub tss_size : ℕ
tss_size = 104

-- `tss_desc_t`
pub record TssDesc : Type 0 where
  pub seglimit : ℕ
  pub base_addr_low : ℕ
  pub base_addr_middle : ℕ
  pub kind : ℕ
  pub zero_bit : ℕ
  pub dpl : ℕ
  pub p : ℕ
  pub seg_limit_upper : ℕ
  pub avl : ℕ
  pub unused : ℕ
  pub g : ℕ
  pub base_addr_other_middle : ℕ
  pub base_addr_upper : ℕ
  pub reserved : ℕ

-- The two empty entries that the table has for it.
abbrev pub empty_tss_desc : TssDesc
empty_tss_desc = record {
  seglimit = 0;
  base_addr_low = 0;
  base_addr_middle = 0;
  kind = 0;
  zero_bit = 0;
  dpl = 0;
  p = 0;
  seg_limit_upper = 0;
  avl = 0;
  unused = 0;
  g = 0;
  base_addr_other_middle = 0;
  base_addr_upper = 0;
  reserved = 0;
}

-- `tss_entry_t`, of which all but the stack for ring 0 stays 0.
pub record TssEntry : Type 0 where
  pub rsp0_low : ℕ
  pub rsp0_high : ℕ
  pub others : ℕ → ℕ

-- `tss` is the address of the task state, and `block` what `kmalloc(0x500)` returns.
unfoldable pub write_tss : TssDesc → (tss block : ℕ) → TssDesc × TssEntry
write_tss desc tss block =
    let stack = u64 (block + (0x500 - 1)) in
    (
      record desc {
        seglimit = tss_size;
        g = 0;
        base_addr_low = bit_and tss 0xFFFF;
        base_addr_middle = bit_and (tss / 2 ^ 16) 0xFF;
        base_addr_other_middle = bit_and (tss / 2 ^ 24) 0xFF;
        base_addr_upper = u32 (tss / 2 ^ 32);
        avl = 0;
        dpl = 0;
        p = 1;
        reserved = 0;
        kind = 0x9;
        zero_bit = 0;
      },
      record {
        rsp0_low = u32 (bit_and stack (u32 stack));
        rsp0_high = u32 (stack / 2 ^ 32);
        others = λ _. 0;
      },
    )

-- `load_tss_bsp`, up to the instruction that loads it: `tss` and `block` are what `kmalloc` returns.
abbrev pub load_tss_bsp : (tss block : ℕ) → TssDesc × TssEntry
load_tss_bsp tss block = write_tss empty_tss_desc tss block
