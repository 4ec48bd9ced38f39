-- ===== src/Amd64/Apic/Redirection.antt =====
-- The redirection table, as the writes to the registers of the I/O APIC leave it.
use qnixx.Common.{
  ℕ, zero, suc, ◌+◌, ◌*◌, ◌/◌, ◌^◌, ◌≤◌, ◌<◌, ◌≡◌, ◌≢◌, ◌⊎◌, inl, inr, ◌&&◌, [], ◌∷◌, ◌==◌,
  if◌then◌else◌, bit_and, arith,
}
use qnixx.Common.Word.{u8, u32, u64}
use qnixx.Amd64.Io.{Hardware, store, Trace, Io, each}
use qnixx.Amd64.Apic.{write_mmio, read_mmio, ioapic_set_entry, ioapic_init}

first_or_later : (i j : ℕ) → i ≤ j → (i ≡ j) ⊎ (i < j)
first_or_later i j from = ground arith

module _ (base : ℕ) where
  -- The register that is selected, and the value that register `r` was given last.
  abbrev selected : Trace → ℕ
  selected [] = 0
  selected (store _ a v ∷ t) = if a == base then v else selected t
  selected (_ ∷ t) = selected t

  abbrev pub register : (r : ℕ) → Trace → ℕ
  register r [] = 0
  register r (store _ a v ∷ t) =
      if (a == u64 (base + 0x10)) && (selected t == r) then v else register r t
  register r (_ ∷ t) = register r t

  register-write_mmio :
      (reg value r : ℕ) (t : Trace)
      → base < 2 ^ 64
      → reg < 2 ^ 8
      → register r (write_mmio base reg value t).1 ≡ (if reg == r then u32 value else register r t)
  unfolding write_mmio
  register-write_mmio reg value r t fits small = ground arith

  -- The two registers of an entry are written, the low one first.
  register-set_entry :
      (i entry r : ℕ) (t : Trace)
      → base < 2 ^ 64
      → i < 120
      → register r (ioapic_set_entry base i entry t).1 ≡ (
          if 0x10 + i * 2 + 1 == r
          then u32 (entry / 2 ^ 32)
          else (if 0x10 + i * 2 == r then u32 entry else register r t))
  unfolding ioapic_set_entry
  register-set_entry i entry r t fits small =
      let index : u8 i ≡ i = omega (arith, small) in
      let first = write_mmio base (0x10 + i * 2) (u32 entry) t in
      rw index (
        ground (
          arith,
          register-write_mmio (0x10 + i * 2 + 1) (u32 (entry / 2 ^ 32)) r first.1 fits
              (omega (arith, small)),
          register-write_mmio (0x10 + i * 2) (u32 entry) r t fits (omega (arith, small)),
        ))

  -- Entry `i` of the table is masked, and stands for nothing else.
  pub record Masked (i : ℕ) (t : Trace) : Type 0 where
    pub low : register (0x10 + i * 2) t ≡ 2 ^ 16
    pub high : register (0x10 + i * 2 + 1) t ≡ 0

  set_entry-Masked :
      (i : ℕ) (t : Trace)
      → base < 2 ^ 64
      → i < 120
      → Masked i (ioapic_set_entry base i (2 ^ 16) t).1
  set_entry-Masked i t fits small = record {
    low = ground (arith, register-set_entry i (2 ^ 16) (0x10 + i * 2) t fits small);
    high = ground (arith, register-set_entry i (2 ^ 16) (0x10 + i * 2 + 1) t fits small);
  }

  set_entry-keeps :
      (i j : ℕ) (t : Trace)
      → base < 2 ^ 64
      → i < 120
      → j < 120
      → i ≢ j
      → Masked j t
      → Masked j (ioapic_set_entry base i (2 ^ 16) t).1
  set_entry-keeps i j t fits small small' apart masked = record {
    low = ground (arith, register-set_entry i (2 ^ 16) (0x10 + j * 2) t fits small, masked.low);
    high =
        ground (arith, register-set_entry i (2 ^ 16) (0x10 + j * 2 + 1) t fits small, masked.high);
  }

  abbrev mask_entry : ℕ → Io (Unit {0})
  mask_entry i = ioapic_set_entry base i (2 ^ 16)

  each-keeps :
      (n i j : ℕ) (t : Trace)
      → base < 2 ^ 64
      → i + n ≤ 120
      → j < i
      → Masked j t
      → Masked j (each n i mask_entry t).1
  unfolding each
  each-keeps zero i j t fits room before masked = masked
  each-keeps (suc n) i j t fits room before masked =
      each-keeps n (i + 1) j (mask_entry i t).1 fits (omega (arith, room)) (omega (arith, before)) (
        set_entry-keeps i j t fits (omega (arith, room)) (omega (arith, room, before))
          (omega (arith, before)) masked)

  each-Masked :
      (n i j : ℕ) (t : Trace)
      → base < 2 ^ 64
      → i + n ≤ 120
      → i ≤ j
      → j < i + n
      → Masked j (each n i mask_entry t).1
  unfolding each
  each-Masked zero i j t fits room from to = absurd (omega (arith, from, to))
  each-Masked (suc n) i j t fits room from to = elim (first_or_later i j from) [
    | inl first ↦
        each-keeps n (i + 1) j (mask_entry i t).1 fits (omega (arith, room)) (omega (arith, first))
          (rw (← first) (set_entry-Masked i t fits (omega (arith, room))))
    | inr later ↦
        each-Masked n (i + 1) j (mask_entry i t).1 fits (omega (arith, room)) (omega (arith, later))
          (omega (arith, to))
  ]

  -- If the version register says that the last of at most 120 entries is n, then after
  -- ioapic_init the two registers of each entry up to n hold the mask bit alone.
  pub ioapic_init-Masked :
      (hw : Hardware) (t : Trace) (i : ℕ)
      → base < 2 ^ 64
      → bit_and ((read_mmio hw base 0x01 t).0 / 2 ^ 16) 0xFF < 120
      → i ≤ bit_and ((read_mmio hw base 0x01 t).0 / 2 ^ 16) 0xFF
      → Masked i (ioapic_init hw base t).1
  unfolding ioapic_init
  ioapic_init-Masked hw t i fits few inside =
      each-Masked (bit_and ((read_mmio hw base 0x01 t).0 / 2 ^ 16) 0xFF + 1) 0 i
        (read_mmio hw base 0x01 t).1 fits (omega (arith, few)) (omega arith) (omega (arith, inside))
