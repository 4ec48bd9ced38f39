-- ===== src/Amd64/Cores/Find.antt =====
-- A core finds its own descriptor.
use qnixx.Common.{
  ℕ, zero, suc, ◌+◌, ◌<◌, ◌≡◌, ◌≢◌, refl, sym, ap, ◌∙◌, Option, some, none≢some, some_eq, some_pair,
  Option-cases, inl, inr, List, [], ◌∷◌, length, All, get_elem?, ==_refl, ne→==, update_self,
  update_ne, arith,
}
use qnixx.Sched.Types.{Core}
use qnixx.Mm.Vmm.{Vm}
use qnixx.Sync.Mutex.Exclusion.{mutex_acquire-free}
use qnixx.Amd64.Cores.{
  SmpInfo, CoreBlocks, Smp, init_core_desc, init_cores, start_ap, start_aps, smp_init, find_core,
  this_core,
}

-- The cores have IDs of one byte, and no two have the same.
abbrev pub Distinct : List SmpInfo → Type 0
Distinct [] = Unit
Distinct (c ∷ cs) = (c.lapic_id < 256) × All (λ d. d.lapic_id ≢ c.lapic_id) cs × Distinct cs

-- An index below the loop is left alone.
pub init_cores_below :
    (blocks : ℕ → CoreBlocks) (i j : ℕ) (infos : List SmpInfo) (cores : ℕ → Core)
    → j < i
    → init_cores blocks i infos cores j ≡ cores j
unfolding init_cores
init_cores_below blocks i j [] cores below = refl
init_cores_below blocks i j (info ∷ infos) cores below =
    init_cores_below blocks (i + 1) j infos _ (omega (arith, below))
    ∙ update_ne cores _ (omega (arith, below))

first_id :
    (blocks : ℕ → CoreBlocks) (i : ℕ) (info : SmpInfo) (infos : List SmpInfo) (cores : ℕ → Core)
    → info.lapic_id < 256
    → (init_cores blocks i (info ∷ infos) cores i).lapic_id ≡ info.lapic_id
unfolding init_cores init_core_desc
first_id blocks i info infos cores small =
    ap (λ (c : Core). c.lapic_id)
      (init_cores_below blocks (i + 1) i infos _ (omega arith) ∙ update_self cores i _)
    ∙ omega (arith, small)

find_core-here :
    (id left i : ℕ) (cores : ℕ → Core)
    → (cores i).lapic_id ≡ id
    → find_core id (suc left) i cores ≡ some i
unfolding find_core
find_core-here id left i cores h = rw (h, ==_refl id) refl

find_core-next :
    (id left i : ℕ) (cores : ℕ → Core)
    → (cores i).lapic_id ≢ id
    → find_core id (suc left) i cores ≡ find_core id left (i + 1) cores
unfolding find_core
find_core-next id left i cores h = rw (ne→== (cores i).lapic_id id h) refl

other_id :
    (infos : List SmpInfo) (n k : ℕ) (info : SmpInfo)
    → All (λ d. d.lapic_id ≢ k) infos
    → get_elem? infos n ≡ some info
    → info.lapic_id ≢ k
other_id [] n k info all at = absurd (none≢some at)
other_id (c ∷ cs) zero k info (first, rest) at = rw (← some_eq at) first
other_id (c ∷ cs) (suc n) k info (first, rest) at = other_id cs n k info rest at

find_core-init_cores :
    (blocks : ℕ → CoreBlocks) (infos : List SmpInfo) (i n : ℕ) (info : SmpInfo) (cores : ℕ → Core)
    → Distinct infos
    → get_elem? infos n ≡ some info
    → find_core info.lapic_id (length infos) i (init_cores blocks i infos cores) ≡ some (i + n)
unfolding init_cores
find_core-init_cores blocks [] i n info cores distinct at = absurd (none≢some at)
find_core-init_cores blocks (c ∷ cs) i zero info cores (small, others, rest) at =
    let same : c.lapic_id ≡ info.lapic_id = ap (λ (x : SmpInfo). x.lapic_id) (some_eq at) in
    find_core-here info.lapic_id (length cs) i (init_cores blocks i (c ∷ cs) cores)
      (first_id blocks i c cs cores small ∙ same)
    ∙ ap some (omega arith)
find_core-init_cores blocks (c ∷ cs) i (suc n) info cores (small, others, rest) at =
    let differs = other_id cs n c.lapic_id info others at in
    find_core-next info.lapic_id (length cs) i (init_cores blocks i (c ∷ cs) cores)
      (λ e. differs (sym e ∙ first_id blocks i c cs cores small))
    ∙ find_core-init_cores blocks cs (i + 1) n info _ rest at
    ∙ ap some (omega arith)

-- The loop that starts the cores keeps their number.
length-start_aps :
    (undef : ℕ → ℕ → ℕ) (hhdm bsp ap_entry : ℕ) (infos booted : List SmpInfo) (vm vm' : Vm)
    → start_aps undef hhdm bsp ap_entry infos vm ≡ some (booted, vm')
    → length booted ≡ length infos
unfolding start_aps
length-start_aps undef hhdm bsp ap_entry [] booted vm vm' done = ap length (sym (some_pair done).0)
length-start_aps undef hhdm bsp ap_entry (info ∷ infos) booted vm vm' done =
    elim (Option-cases (start_ap undef hhdm bsp ap_entry info vm)) [
      | inl failed ↦ elim (none≢some (sym (rw (failed, start_aps) refl) ∙ done)) [ ]
      | inr ((started, vm1), first) ↦
          elim (Option-cases (start_aps undef hhdm bsp ap_entry infos vm1)) [
            | inl failed ↦ elim (none≢some (sym (rw (first, failed, start_aps) refl) ∙ done)) [ ]
            | inr ((rest, vm2), others) ↦
                let whole : start_aps undef hhdm bsp ap_entry (info ∷ infos) vm
                    ≡ some (started ∷ rest, vm2) =
                  rw (first, others, start_aps) refl in
                let shape = (some_pair (sym whole ∙ done)).0 in
                let tail = length-start_aps undef hhdm bsp ap_entry infos rest vm1 vm2 others in
                ap length (sym shape) ∙ ap suc tail
          ]
    ]

pub smp_init_inv :
    (undef : ℕ → ℕ → ℕ) (hhdm ap_entry : ℕ) (blocks : ℕ → CoreBlocks) (smp smp' : Smp)
    (cores cores' : ℕ → Core) (vm vm' : Vm)
    → smp_init undef hhdm ap_entry blocks smp cores vm ≡ some (cores', smp', vm')
    → (cores' ≡ init_cores blocks 0 smp.cpus cores) × (length smp'.cpus ≡ length smp.cpus)
unfolding smp_init
smp_init_inv undef hhdm ap_entry blocks smp smp' cores cores' vm vm' done =
    elim (Option-cases (start_aps undef hhdm smp.bsp_lapic_id ap_entry smp.cpus vm)) [
      | inl failed ↦ elim (none≢some (sym (rw (failed, smp_init) refl) ∙ done)) [ ]
      | inr ((booted, vm1), run) ↦
          let whole : smp_init undef hhdm ap_entry blocks smp cores vm
              ≡ some (init_cores blocks 0 smp.cpus cores, record smp { cpus = booted }, vm1) =
            rw (run, smp_init) refl in
          let same = some_eq (sym whole ∙ done) in
          let kept =
            length-start_aps undef hhdm smp.bsp_lapic_id ap_entry smp.cpus booted vm vm1 run in
          (
            sym (ap (λ (r : (ℕ → Core) × Smp × Vm). r.0) same),
            ap (λ (r : (ℕ → Core) × Smp × Vm). length r.1.cpus) (sym same) ∙ kept,
          )
    ]

this_core-find_core :
    (fuel id : ℕ) (smp : Smp) (cores : ℕ → Core)
    → this_core (suc fuel) 0 id smp cores ≡ some (find_core id (length smp.cpus) 0 cores, 0)
unfolding this_core
this_core-find_core fuel id smp cores = rw (mutex_acquire-free fuel, this_core) refl

-- If the local APIC IDs of the cores are distinct and below 256 and smp_init returns, then on the
-- n-th core, with the lock free, this_core returns the n-th descriptor and leaves the lock free.
pub this_core-smp_init :
    (undef : ℕ → ℕ → ℕ) (hhdm ap_entry : ℕ) (blocks : ℕ → CoreBlocks) (smp smp' : Smp)
    (cores cores' : ℕ → Core) (vm vm' : Vm) (n : ℕ) (info : SmpInfo) (fuel : ℕ)
    → Distinct smp.cpus
    → get_elem? smp.cpus n ≡ some info
    → smp_init undef hhdm ap_entry blocks smp cores vm ≡ some (cores', smp', vm')
    → this_core (suc fuel) 0 info.lapic_id smp' cores' ≡ some (some n, 0)
this_core-smp_init undef hhdm ap_entry blocks smp smp' cores cores' vm vm' n info fuel distinct at
      done =
    let (made, count) = smp_init_inv undef hhdm ap_entry blocks smp smp' cores cores' vm vm' done in
    rw (this_core-find_core fuel info.lapic_id smp' cores', made, count)
      (ap (λ (found : Option ℕ). some (found, 0))
        (find_core-init_cores blocks smp.cpus 0 n info cores distinct at ∙ ap some (omega arith)))
