-- ===== src/Mm/Vmm/Level.antt =====
-- One level of a page walk.
use qnixx.Common.{
  ℕ, ◌+◌, ◌-◌, ◌*◌, ◌/◌, ◌%◌, ◌^◌, ◌<◌, ◌≡◌, ◌≢◌, refl, ◌∙◌, ap, Bool, true, inl, inr, none, some,
  arith, Bool-cases, update, update_self, update_ne, bit_and, bit_or,
}
use qnixx.Common.BitLaws.{bit_and-ones, bit_and-shift, bit_or-add, add-bit_or}
use qnixx.Common.Bits.{bit_or_step}
use qnixx.Common.Word.{u64}
use qnixx.Mm.Pmm.{Pmm, page_size, get_bitmap_size, pmm_alloc}
use qnixx.Mm.Pmm.Alloc.{pmm_alloc_lem}
use qnixx.Libkern.Bitmap.Marked.{AreBytes}
use qnixx.Mm.Vmm.{Vm, slot, pte_get_addr, is_present, table_entry, put, get_next_level}

-- The mask keeps the 40 bits from bit 12 on.
pub pte_get_addr_lem : (value : ℕ) → pte_get_addr value ≡ value / 4096 % 2 ^ 40 * 4096
pte_get_addr_lem value =
    bit_and-shift 12 value (2 ^ 40 - 1) ∙ ap (λ (t : ℕ). t * 4096) (bit_and-ones 40 (value / 4096))

present_bit : (value : ℕ) → bit_and value 1 ≡ value % 2
present_bit value = bit_and-ones 1 value

-- A new table's entry holds its address beside the three flags.
pub table_entry_lem :
    (next : ℕ) → next % 4096 ≡ 0 → next < 2 ^ 52 → table_entry next ≡ next + 3 + 2 ^ 63
table_entry_lem next whole small =
    let page : next ≡ next / 4096 * 2 ^ 12 = omega arith in
    let one : bit_or next 1 ≡ next + 1 =
      ap (λ (t : ℕ). bit_or t 1) page ∙ bit_or-add 12 (next / 4096) 1 (omega arith) ∙ omega arith in
    let halved : bit_or ((next + 1) / 2) 1 ≡ next / 2 + 1 =
      ap (λ (t : ℕ). bit_or t 1) (omega arith)
      ∙ bit_or-add 11 (next / 4096) 1 (omega arith)
      ∙ omega arith in
    let two : bit_or (next + 1) 2 ≡ next + 3 = omega (arith, bit_or_step (next + 1) 2, halved) in
    rw (one, two) (add-bit_or 63 1 (next + 3) (omega arith))

-- The walk goes from the entry to the table `below`.
pub record Leads (hhdm : ℕ) (memory : ℕ → ℕ) (address below : ℕ) : Type 0 where
  pub present : is_present (memory address) ≡ true
  pub target : u64 (pte_get_addr (memory address) + hhdm) ≡ below

Leads-table_entry :
    (hhdm next address : ℕ) (memory : ℕ → ℕ)
    → next % 4096 ≡ 0
    → next < 2 ^ 52
    → Leads hhdm (update memory address (table_entry next)) address (u64 (next + hhdm))
Leads-table_entry hhdm next address memory whole small =
    let entry = update_self memory address (table_entry next) ∙ table_entry_lem next whole small in
    record {
      present = rw entry (ground (arith, present_bit (next + 3 + 2 ^ 63)));
      target =
          rw entry
            (ap (λ (t : ℕ). u64 (t + hhdm)) (pte_get_addr_lem (next + 3 + 2 ^ 63) ∙ omega arith));
    }

module _ (undef : ℕ → ℕ → ℕ) (hhdm top index : ℕ) where
  -- A present entry is followed, and nothing is changed.
  pub get_next_level-Leads :
      (alloc : Bool) (s : Vm) {below : ℕ}
      → Leads hhdm s.memory (slot top index) below
      → get_next_level undef hhdm top index alloc s ≡ some (below, s)
  unfolding get_next_level
  get_next_level-Leads alloc s leads = rw leads.present (ap (λ (t : ℕ). some (t, s)) leads.target)

  -- What a level that allocates does: it may write the entry, and then it leads on.
  pub record Walked (s s' : Vm) (below : ℕ) : Type 0 where
    pub leads : Leads hhdm s'.memory (slot top index) below
    pub elsewhere : (a : ℕ) → a ≢ slot top index → s'.memory a ≡ s.memory a
    pub same_cr3 : s'.cr3 ≡ s.cr3

-- A memory manager that hands out pages below 2 ^ 52.
pub record Sound (q : Pmm) : Type 0 where
  pub size : ℕ
  pub sized : get_bitmap_size q.entries ≡ some size
  pub pos : 0 < size
  pub small : size < 2 ^ 36
  pub bytes : AreBytes q.bitmap

pub pmm_alloc-Sound :
    (undef : ℕ → ℕ → ℕ) (q : Pmm)
    → Sound q
    → (p : ℕ) × (t : Pmm) × (pmm_alloc undef q 1 ≡ some (p, t))
      × (p % 4096 ≡ 0)
      × (p < 2 ^ 52)
      × Sound t
pmm_alloc-Sound undef q sound =
    let (bit, t, alloced, cases) =
      pmm_alloc_lem undef q 1 sound.bytes sound.sized sound.pos (omega (arith, sound.small)) in
    elim cases [
      | inl failed ↦
          (page_size * bit, t, alloced, omega arith, omega (arith, failed.0), rw failed.1 sound)
      | inr (ne, m) ↦ (
        page_size * bit,
        t,
        alloced,
        omega arith,
        omega (arith, m.within, sound.small),
        record {
          size = sound.size;
          sized = rw m.entries_kept sound.sized;
          pos = sound.pos;
          small = sound.small;
          bytes = m.bytes_kept;
        },
      )
    ]

module _ (undef : ℕ → ℕ → ℕ) (hhdm top index : ℕ) where
  -- The table that a walk that allocates comes to, and the state.
  abbrev pub level : Vm → ℕ × Vm
  level s = elim (get_next_level undef hhdm top index true s) [ none ↦ (0, s) | some r ↦ r ]

  -- One level of a walk that allocates always succeeds.
  pub get_next_level_total :
      (s : Vm)
      → Sound s.pmm
      → (below : ℕ) × (s' : Vm) × (get_next_level undef hhdm top index true s ≡ some (below, s'))
        × Walked undef hhdm top index s s' below
        × Sound s'.pmm
  unfolding get_next_level
  get_next_level_total s sound = elim (Bool-cases (is_present (s.memory (slot top index)))) [
    | inl present ↦ (
      u64 (pte_get_addr (s.memory (slot top index)) + hhdm),
      s,
      rw present refl,
      record {
        leads = record { present = present; target = refl };
        elsewhere = λ a _. refl;
        same_cr3 = refl;
      },
      sound,
    )
    | inr absent ↦
        let (p, t, alloced, whole, small, sound') = pmm_alloc-Sound undef s.pmm sound in
        (
          u64 (p + hhdm),
          put (slot top index) (table_entry p) (record s { pmm = t }),
          rw (absent, alloced) refl,
          record {
            leads = Leads-table_entry hhdm p (slot top index) s.memory whole small;
            elsewhere = λ a ne. update_ne s.memory (table_entry p) ne;
            same_cr3 = refl;
          },
          sound',
        )
  ]

-- A word that is not written keeps leading.
pub Leads-same :
    (hhdm address below : ℕ) (m m' : ℕ → ℕ)
    → m' address ≡ m address
    → Leads hhdm m address below
    → Leads hhdm m' address below
Leads-same hhdm address below m m' same leads = record {
  present = rw same leads.present;
  target = rw same leads.target;
}
