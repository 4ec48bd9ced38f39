-- ===== src/Start/Tests.antt =====
-- The theorems on the start, on a machine that has what it asks for.
use qnixx.Common.{◌+◌, ◌^◌, ◌≡◌, refl, sym, some_eq, ◌∙◌, ◌<◌, some, [], ◌∷◌, arith}
use qnixx.Amd64.Io.{Trace}
use qnixx.Acpi.{acpi_query, query_from, do_checksum, sum_from}
use qnixx.Libkern.String.{differ_from}
use mathlib.Core.Path.{subst}
use qnixx.Dev.Rtl8139.Reset.{Resets, at_ports}
use qnixx.Amd64.Io.Search.{first}
use qnixx.Dev.Pci.{PciDevice, config_addr, pci_find}
use qnixx.Dev.Pci.Find.{ConfigSpace, device_at, pci_find-found_at}
use qnixx.Start.{Started}
use qnixx.Dev.Hpet.{Hpet}
use qnixx.Sched.Switch.{Ready}
use qnixx.Start.Returns.{Provides, init-returns}
use qnixx.Start.Handlers.{Handled, NamesLines, init-Handled}
use qnixx.Start.Sample.{space, hw, machine}

config : ConfigSpace hw space
config = record { answers = λ t a. refl }

finds : (t : Trace) → (pci_find hw 0x10EC 0x8139 t).0 ≡ some (device_at space 0 3 0)
unfolding first config_addr
finds t = pci_find-found_at space hw config 0x10EC 0x8139 t

names_lines : NamesLines machine
unfolding config_addr
names_lines t dev found =
    let same = some_eq (sym (finds t) ∙ found) in
    subst (λ (dev : PciDevice). dev.irq_line < 0x60) same (omega arith)

resets :
    (t : Trace) (dev : PciDevice)
    → (pci_find hw 0x10EC 0x8139 t).0 ≡ some dev
    → Resets 8 hw (at_ports dev machine.nic)
unfolding config_addr
resets t dev found =
    let same = some_eq (sym (finds t) ∙ found) in
    subst (λ (dev : PciDevice). Resets 8 hw (at_ports dev machine.nic)) same
      (λ t. (0, omega arith, refl))

-- The MADT has one record, of the I/O APIC.
provides : Provides machine
unfolding acpi_query query_from differ_from do_checksum sum_from
provides = record {
  memory = refl;
  madt = λ e. cc;
  records = 0x22C ∷ [];
  tiles = (refl, omega arith, refl);
  enough = omega arith;
  hpet = λ e. cc;
  capabilities = 2 ^ 36 + 0x200;
  timer = record {
    reads = λ t. refl;
    fits = omega arith;
    comparators = omega arith;
    period = λ e. cc;
  };
  children = tt;
  created = refl;
  card = resets;
}

abbrev started : Started machine
started = (init-returns machine provides []).0

init-Handled_example : Handled machine started.vectors
init-Handled_example =
    init-Handled machine names_lines [] started (λ h. omega arith) (omega arith)
      (init-returns machine provides []).1
