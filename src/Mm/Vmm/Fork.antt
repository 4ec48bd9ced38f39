-- ===== src/Mm/Vmm/Fork.antt =====
-- A new top-level table.
use qnixx.Common.{
  ℕ, zero, suc, ◌+◌, ◌<◌, ◌≤◌, ◌≡◌, refl, ◌∙◌, ◌&&◌, ◌⊎◌, inl, inr, some, arith, ◌==◌, leb, ltb,
  if◌then◌else◌, update,
}
use qnixx.Common.Word.{u64}
use qnixx.Common.Loop.{for_loop, for_loop-step, for_loop-done}
use qnixx.Mm.Pmm.{Pmm, pmm_alloc}
use qnixx.Mm.Vmm.{Vm, slot, clear_words, copy_half, vmm_alloc_pages, vmm_get_pml4, vmm_make_pml4}

abbrev clear_body : ℕ → ℕ → (ℕ → ℕ) → ℕ → ℕ
clear_body table i m = update m (slot table i) 0

clear_loop :
    (table n i j : ℕ) (m : ℕ → ℕ)
    → i + n ≡ 64
    → for_loop n 64 1 (clear_body table) i m (slot table j)
      ≡ (if leb i j && ltb j 64 then 0 else m (slot table j))
clear_loop table zero i j m ends =
    rw (for_loop-done 64 1 (clear_body table) zero i m (ground arith)) (ground arith)
clear_loop table (suc n) i j m ends =
    rw (for_loop-step 64 1 (clear_body table) n i m (ground arith))
      (clear_loop table n (i + 1) j (clear_body table i m) (omega arith) ∙ ground arith)

clear_loop_away :
    (table n i a : ℕ) (m : ℕ → ℕ)
    → i + n ≡ 64
    → (a < table) ⊎ (table + 4096 ≤ a)
    → for_loop n 64 1 (clear_body table) i m a ≡ m a
clear_loop_away table zero i a m ends away =
    rw (for_loop-done 64 1 (clear_body table) zero i m (ground arith)) refl
clear_loop_away table (suc n) i a m ends away =
    rw (for_loop-step 64 1 (clear_body table) n i m (ground arith))
      (clear_loop_away table n (i + 1) a (clear_body table i m) (omega arith) away ∙ ground arith)

abbrev copy_body : ℕ → ℕ → ℕ → (ℕ → ℕ) → ℕ → ℕ
copy_body new old i m = update m (slot new i) (m (slot old i))

copy_loop :
    (new old n i j : ℕ) (m : ℕ → ℕ)
    → i + n ≡ 512
    → j < 512
    → (new + 4096 ≤ old) ⊎ (old + 4096 ≤ new)
    → for_loop n 512 1 (copy_body new old) i m (slot new j)
      ≡ (if leb i j then m (slot old j) else m (slot new j))
copy_loop new old zero i j m ends inside apart =
    rw (for_loop-done 512 1 (copy_body new old) zero i m (ground arith)) (ground arith)
copy_loop new old (suc n) i j m ends inside apart =
    rw (for_loop-step 512 1 (copy_body new old) n i m (ground arith)) (
      copy_loop new old n (i + 1) j (copy_body new old i m) (omega arith) inside apart
      ∙ ground arith)

clear_at :
    (table i : ℕ) (m : ℕ → ℕ)
    → clear_words table m (slot table i) ≡ (if ltb i 64 then 0 else m (slot table i))
unfolding clear_words
clear_at table i m = clear_loop table 64 0 i m refl ∙ ground arith

clear_away :
    (table a : ℕ) (m : ℕ → ℕ) → (a < table) ⊎ (table + 4096 ≤ a) → clear_words table m a ≡ m a
unfolding clear_words
clear_away table a m away = clear_loop_away table 64 0 a m refl away

copy_at :
    (new old i : ℕ) (m : ℕ → ℕ)
    → i < 512
    → (new + 4096 ≤ old) ⊎ (old + 4096 ≤ new)
    → copy_half new old m (slot new i) ≡ (if leb 256 i then m (slot old i) else m (slot new i))
unfolding copy_half
copy_at new old i m inside apart = copy_loop new old 256 256 i m refl inside apart

module _ (undef : ℕ → ℕ → ℕ) (hhdm : ℕ) (s : Vm) (p : ℕ) (t : Pmm)
    (alloced : pmm_alloc undef s.pmm 1 ≡ some (p, t)) where
  -- The table that is copied, and the address of the new one.
  abbrev pub source : ℕ
  source = if s.old_pml4 == 0 then vmm_get_pml4 undef hhdm s else s.old_pml4

  abbrev pub target : ℕ
  target = u64 (p + hhdm)

  make_run :
      vmm_make_pml4 undef hhdm s
      ≡ some (
        target,
        record s {
          pmm = t;
          old_pml4 = source;
          memory = copy_half target source (clear_words target s.memory);
        },
      )
  unfolding vmm_make_pml4
  make_run = rw (alloced, vmm_alloc_pages) refl

  -- The upper half is copied, the first 64 entries are cleared, and the others stay as they were.
  pub vmm_make_pml4_lem :
      (i : ℕ)
      → (target + 4096 ≤ source) ⊎ (source + 4096 ≤ target)
      → i < 512
      → (s' : Vm) × (vmm_make_pml4 undef hhdm s ≡ some (target, s'))
        × (s'.memory (slot target i) ≡ (
            if leb 256 i
            then s.memory (slot source i)
            else if ltb i 64
            then 0
            else s.memory (slot target i)))
        × (s'.old_pml4 ≡ source)
  vmm_make_pml4_lem i apart inside = (
    _,
    make_run,
    copy_at target source i (clear_words target s.memory) inside apart
        ∙ ground (
          arith,
          clear_at target i s.memory,
          clear_away target (slot source i) s.memory (beyond apart),
        ),
    refl,
  )
    where
      beyond :
          (target + 4096 ≤ source) ⊎ (source + 4096 ≤ target)
          → (slot source i < target) ⊎ (target + 4096 ≤ slot source i)
      beyond (inl below) = inr (omega arith)
      beyond (inr above) = inl (omega arith)
