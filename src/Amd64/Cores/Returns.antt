-- ===== src/Amd64/Cores/Returns.antt =====
-- While there is usable memory in the map, the start of the cores returns.
use mathlib.Core.Path.{subst}
use qnixx.Common.{
  sym, ap, ◌∙◌, update_self, arith, ℕ, ◌≡◌, ◌==◌, refl, some, length, List, [], ◌∷◌, Bool-cases,
  inl, inr,
}
use qnixx.Mm.Pmm.Usable.{IsUsable}
use qnixx.Mm.Vmm.{Vm}
use qnixx.Mm.Vmm.Usable.{vmm_make_pml4-returns}
use qnixx.Sched.Types.{Core}
use qnixx.Sched.Queue.Chain.{IsQueue}
use qnixx.Sched.Queue.Insert.{init-IsQueue}
use qnixx.Amd64.Cores.Find.{init_cores_below, smp_init_inv}
use qnixx.Amd64.Cores.{
  SmpInfo, CoreBlocks, Smp, init_core_desc, init_cores, start_ap, start_aps, smp_init,
}

module _ (undef : ℕ → ℕ → ℕ) (hhdm : ℕ) where
  start_ap-returns :
      (bsp ap_entry : ℕ) (info : SmpInfo) (vm : Vm)
      → IsUsable vm.pmm
      → (info' : SmpInfo) × (vm' : Vm) × (start_ap undef hhdm bsp ap_entry info vm
          ≡ some (info', vm'))
        × IsUsable vm'.pmm
  unfolding start_ap
  start_ap-returns bsp ap_entry info vm h = elim (Bool-cases (info.lapic_id == bsp)) [
    | inl itself ↦ (info, vm, rw (itself, start_ap) refl, h)
    | inr other ↦
        let (pml4, next, run, still) = vmm_make_pml4-returns undef hhdm vm h in
        (
          record info { extra_argument = pml4; goto_address = ap_entry },
          next,
          rw (other, run, start_ap) refl,
          still,
        )
  ]

  start_aps-returns :
      (bsp ap_entry : ℕ) (infos : List SmpInfo) (vm : Vm)
      → IsUsable vm.pmm
      → (infos' : List SmpInfo) × (vm' : Vm) × (start_aps undef hhdm bsp ap_entry infos vm
          ≡ some (infos', vm'))
        × IsUsable vm'.pmm
  unfolding start_aps
  start_aps-returns bsp ap_entry [] vm h = ([], vm, refl, h)
  start_aps-returns bsp ap_entry (info ∷ infos) vm h =
      let (started, next, first, still) = start_ap-returns bsp ap_entry info vm h in
      let (rest, last, others, left) = start_aps-returns bsp ap_entry infos next still in
      (started ∷ rest, last, rw (first, others, start_aps) refl, left)

  pub smp_init-returns :
      (ap_entry : ℕ) (blocks : ℕ → CoreBlocks) (smp : Smp) (cores : ℕ → Core) (vm : Vm)
      → IsUsable vm.pmm
      → (r : (ℕ → Core) × Smp × Vm) × (smp_init undef hhdm ap_entry blocks smp cores vm ≡ some r)
        × (r.0 ≡ init_cores blocks 0 smp.cpus cores)
        × (length r.1.cpus ≡ length smp.cpus)
        × IsUsable r.2.pmm
  unfolding smp_init
  smp_init-returns ap_entry blocks smp cores vm h =
      let (cpus, last, run, left) = start_aps-returns smp.bsp_lapic_id ap_entry smp.cpus vm h in
      let whole : smp_init undef hhdm ap_entry blocks smp cores vm
          ≡ some (init_cores blocks 0 smp.cpus cores, record smp { cpus = cpus }, last) =
        rw (run, smp_init) refl in
      let (same, count) = smp_init_inv undef hhdm ap_entry blocks smp _ cores _ vm _ whole in
      (
        (init_cores blocks 0 smp.cpus cores, record smp { cpus = cpus }, last),
        whole,
        same,
        count,
        left,
      )

-- The first core that is started has an empty queue and no running process.
pub init_cores-off :
    (blocks : ℕ → CoreBlocks) (info : SmpInfo) (infos : List SmpInfo) (cores : ℕ → Core)
    → IsQueue (init_cores blocks 0 (info ∷ infos) cores 0).processq []
      × ((init_cores blocks 0 (info ∷ infos) cores 0).running_process ≡ 0)
unfolding init_cores init_core_desc
init_cores-off blocks info infos cores =
    let core = (init_core_desc (cores 0) info.lapic_id (blocks 0)).0 in
    let same : init_cores blocks 0 (info ∷ infos) cores 0 ≡ core =
      init_cores_below blocks 1 0 infos _ (omega arith) ∙ update_self cores 0 core in
    (
      subst (λ (c : Core). IsQueue c.processq []) (sym same) (init-IsQueue (cores 0).processq),
      ap (λ (c : Core). c.running_process) same,
    )
