-- ===== src/Start/Handlers.antt =====
-- The interrupt table once the kernel has been started.
use mathlib.Core.Path.{subst}
use qnixx.Common.{
  ℕ, ◌+◌, ◌^◌, ◌≤◌, ◌<◌, ◌≡◌, ◌⊎◌, inl, inr, refl, sym, ap, ◌∙◌, Option, none, some, none≢some,
  some_eq, arith,
}
use qnixx.Common.Word.{u8}
use qnixx.Amd64.Io.{Trace, Io}
use qnixx.Amd64.Idt.{
  Idt, Handler, gate_of, register_interrupt, register_irq, init_exceptions, alloc_int_vector,
}
use qnixx.Amd64.Idt.Gates.{
  gate_address, gate_of_lem, vector_of, vector_of_small, register_irq-registers,
  init_exceptions_lem, register_interrupt_self, register_interrupt_elsewhere,
}
use qnixx.Amd64.Apic.Lapic.{Vectors, lapic_init, take_vectors}
use qnixx.Acpi.{Acpi}
use qnixx.Dev.Pci.{PciDevice, pci_find}
use qnixx.Dev.Rtl8139.Line.{rtl8139_init-registers}
use qnixx.Start.{
  Boot, ◌>>=◌, Machine, Started, init, no_vectors, init_net, register_nic, lapic_base,
}

-- What holds of the result of a start that returns.
abbrev Ensures : {A : Type 0} → Boot A → (A → Type 0) → Type 0
Ensures {A} m P = (t : Trace) (a : A) → (m t).0 ≡ some a → P a

bind_cases :
    {A B : Type 0} (P : B → Type 0) (o : Option A) (f : A → Boot B) (t : Trace) (b : B)
    → ((a : A) → o ≡ some a → Ensures (f a) P)
    → (elim o as (λ _. Option B × Trace) [ none ↦ (none, t) | some a ↦ f a t ]).0 ≡ some b
    → P b
bind_cases P none f t b rest done = absurd (none≢some done)
bind_cases P (some a) f t b rest done = rest a refl t b done

bind-Ensures :
    {A B : Type 0} (P : B → Type 0) (m : Boot A) (f : A → Boot B)
    → ((a : A) (t : Trace) → (m t).0 ≡ some a → Ensures (f a) P)
    → Ensures (m >>= f) P
unfolding ◌>>=◌
bind-Ensures P m f rest t b done = bind_cases P (m t).0 f (m t).1 b (λ a here. rest a t here) done

-- The first call of lapic_init takes the vectors 0x81 and 0x82.
lapic_init-first :
    (base timer_isr : ℕ) (m : Machine) (idt : Idt) (t : Trace)
    → (lapic_init base timer_isr (no_vectors m idt) t).0 ≡ record {
      timer_vector = 0x82;
      goto_vector = 0x81;
      next_vector = 0x83;
      idt = register_interrupt idt 0x82 timer_isr;
    }
unfolding lapic_init take_vectors alloc_int_vector
lapic_init-first base timer_isr m idt t = refl

module _ (remap : ℕ → Option ℕ) (set_entry : ℕ → ℕ → Io (Unit {0})) (isr : ℕ) (idt idt' : Idt) where
  -- A line of the first 96 leaves the vectors of the exceptions and of the timer alone.
  line-keeps :
      (irq vector : ℕ) (t : Trace)
      → irq < 0x60
      → (vector < 0x20) ⊎ (0x80 ≤ vector)
      → (register_irq remap set_entry irq isr idt t).0 ≡ some idt'
      → idt' vector ≡ idt vector
  line-keeps irq vector t few away done =
      ap (λ (i : Idt). i vector) (register_irq-registers remap set_entry isr idt idt' irq t done)
      ∙ register_interrupt_elsewhere idt (u8 (0x20 + irq)) isr vector (omega (arith, few))
          (omega (arith, few, away))

-- The lines that the cards name are those of the first 96.
abbrev pub NamesLines : Machine → Type 0
NamesLines m =
    (t : Trace) (dev : PciDevice)
    → (pci_find m.hw 0x10EC 0x8139 t).0 ≡ some dev
    → dev.irq_line < 0x60

-- The gates of the exceptions and of the timer hold their handlers.
pub record Handled (m : Machine) (vectors : Vectors) : Type 0 where
  pub exception :
      (h : Handler)
      → (gate_address (vectors.idt (vector_of h)) ≡ m.handlers h)
        × ((vectors.idt (vector_of h)).attr ≡ 0xF)
  pub vector : vectors.timer_vector ≡ 0x82
  pub timer : (gate_address (vectors.idt 0x82) ≡ m.timer_isr) × ((vectors.idt 0x82).attr ≡ 0xE)

module _ (m : Machine) (lines : NamesLines m) where
  -- What the start of the card leaves of a table.
  init_net-keeps :
      (acpi : Acpi) (idt : Idt) (vector : ℕ)
      → (vector < 0x20) ⊎ (0x80 ≤ vector)
      → Ensures (init_net m acpi idt) (λ net. net.1 vector ≡ idt vector)
  init_net-keeps acpi idt vector away t (nic, idt') done =
      elim (rtl8139_init-registers m.hw m.kmalloc m.vmm_get_phys (register_nic m acpi) m.fuel m.nic
        nic idt idt' t done) [
          | inl same ↦ ap (λ (i : Idt). i vector) same
          | inr (dev, found, t1, registered) ↦
              line-keeps _ _ m.nic_isr idt idt' dev.irq_line vector t1 (lines t dev found) away
                registered
        ]

  Handled-table :
      (v : Vectors) (idt : Idt)
      → v ≡ record {
        timer_vector = 0x82;
        goto_vector = 0x81;
        next_vector = 0x83;
        idt = register_interrupt (init_exceptions m.handlers m.idt) 0x82 m.timer_isr;
      }
      → ((vector : ℕ) → (vector < 0x20) ⊎ (0x80 ≤ vector) → idt vector ≡ v.idt vector)
      → ((h : Handler) → m.handlers h < 2 ^ 64)
      → m.timer_isr < 2 ^ 64
      → Handled m (record v { idt = idt })
  Handled-table v idt shape kept fits fits' =
      let table = init_exceptions m.handlers m.idt in
      let own : v.idt ≡ register_interrupt table 0x82 m.timer_isr =
        ap (λ (v : Vectors). v.idt) shape in
      let exception : (h : Handler) → idt (vector_of h) ≡ gate_of (m.handlers h) 0x8F = λ h.
        kept (vector_of h) (inl (omega (arith, vector_of_small h)))
        ∙ ap (λ (i : Idt). i (vector_of h)) own
        ∙ register_interrupt_elsewhere table 0x82 m.timer_isr (vector_of h) (omega arith)
            (omega (arith, vector_of_small h))
        ∙ init_exceptions_lem m.handlers m.idt h in
      let timer : idt 0x82 ≡ gate_of m.timer_isr 0x8E =
        kept 0x82 (inr (omega arith))
        ∙ ap (λ (i : Idt). i 0x82) own
        ∙ register_interrupt_self table 0x82 m.timer_isr (omega arith) in
      record {
        exception = λ h. rw (exception h) (gate_of_lem (m.handlers h) 0x8F (fits h));
        vector = ap (λ (v : Vectors). v.timer_vector) shape;
        timer = rw timer (gate_of_lem m.timer_isr 0x8E fits');
      }

  -- If the handlers of the exceptions and of the timer have 64-bit addresses, every card that
  -- pci_find may find as the network card names an interrupt line below 0x60, and the start of
  -- the kernel returns, then the gate of each exception holds the address of its handler as a
  -- trap gate, the timer vector is 0x82, and the gate there holds the address of the timer
  -- handler as an interrupt gate, whatever the table held before.
  pub init-Handled :
      (t : Trace) (s : Started m)
      → ((h : Handler) → m.handlers h < 2 ^ 64)
      → m.timer_isr < 2 ^ 64
      → (init m t).0 ≡ some s
      → Handled m s.vectors
  unfolding init
  init-Handled t s fits fits' =
      let Goal = λ (s : Started m). Handled m s.vectors in
      bind-Ensures Goal _ _
        (λ pmm _ _. bind-Ensures Goal _ _ (λ acpi _ _. bind-Ensures Goal _ _ (λ masked _ _.
          bind-Ensures Goal _ _ (λ v t4 first. bind-Ensures Goal _ _ (λ pool _ _.
            bind-Ensures Goal _ _ (λ net t6 carded. bind-Ensures Goal _ _ (λ hpet _ _.
              bind-Ensures Goal _ _ (λ vfs _ _. bind-Ensures Goal _ _ (λ others _ _ t b done.
                subst Goal (some_eq done) (
                  Handled-table v net.1
                    (sym (some_eq first)
                      ∙ lapic_init-first (lapic_base m acpi) m.timer_isr m
                          (init_exceptions m.handlers m.idt) t4)
                    (λ vector away. init_net-keeps acpi v.idt vector away t6 net carded) fits
                    fits'))))))))))
        t s
