-- ===== src/Dev/Rtl8139/Interrupt.antt =====
-- The interrupt handler of the card: its loop, and what it leaves.
use mathlib.Core.Path.{subst}
use qnixx.Common.{
  ℕ, zero, suc, ◌+◌, ◌≤◌, ◌<◌, ◌≡◌, ◌⊎◌, inl, inr, refl, sym, ap, ◌∙◌, false, Bool-cases, Option,
  some, [], ◌∷◌, ◌==◌, if◌then◌else◌, bit_and, arith,
}
use qnixx.Common.Word.{u8, u16, u32}
use qnixx.Amd64.Io.{Hardware, Event, Trace, Io, out, inp, store, load}
use qnixx.Dev.Rtl8139.{Nic, port, is_set, int_all, recieve, accept, isr_loop, isr}
use qnixx.Dev.Rtl8139.Receive.{IsOffset, recieve-IsOffset, recieve_elsewhere}

-- The writes to a port.
abbrev writes_of : ℕ → Event → ℕ
writes_of p (out width q value) = if q == p then 1 else 0
writes_of p (inp width q) = 0
writes_of p (store width a value) = 0
writes_of p (load width a) = 0

abbrev pub writes : ℕ → Trace → ℕ
writes p [] = 0
writes p (e ∷ t) = writes_of p e + writes p t

-- The interrupts that the status register tells, as `isr` keeps them.
abbrev pub causes : Hardware → Nic → Trace → ℕ
causes hw nic t = u8 (bit_and (u16 (hw t (inp 16 (u16 (port nic 0x3E))))) int_all)

-- After a number of acknowledgements no more interrupts are told.
abbrev pub Settles : (n : ℕ) → Hardware → Nic → Type 0
Settles n hw nic = (t : Trace) → n ≤ writes (u16 (port nic 0x3E)) t → causes hw nic t ≡ 0

-- What the handler leaves of the card's state and of the memory.
pub record Keeps (before after : Nic) : Type 0 where
  pub offset : IsOffset after.rxbuf_offset
  pub iobase : after.iobase ≡ before.iobase
  pub packet_buf : after.packet_buf ≡ before.packet_buf
  pub memory :
      (a : ℕ)
      → (a < before.packet_buf) ⊎ (before.packet_buf + 0x600 ≤ a)
      → after.memory a ≡ before.memory a

Keeps-same : (nic : Nic) → IsOffset nic.rxbuf_offset → Keeps nic nic
Keeps-same nic at = record {
  offset = at;
  iobase = refl;
  packet_buf = refl;
  memory = λ a away. refl;
}

Keeps-trans : (a b c : Nic) → Keeps a b → Keeps b c → Keeps a c
Keeps-trans a b c first second = record {
  offset = second.offset;
  iobase = second.iobase ∙ first.iobase;
  packet_buf = second.packet_buf ∙ first.packet_buf;
  memory = λ i away. second.memory i (omega (arith, away, first.packet_buf)) ∙ first.memory i away;
}

module _ (hw : Hardware) where
  recieve-iobase : (nic : Nic) (t : Trace) → (recieve hw nic t).0.iobase ≡ nic.iobase
  unfolding recieve accept
  recieve-iobase nic t = ground arith

  recieve-packet_buf : (nic : Nic) (t : Trace) → (recieve hw nic t).0.packet_buf ≡ nic.packet_buf
  unfolding recieve accept
  recieve-packet_buf nic t = ground arith

  recieve-writes : (p : ℕ) (nic : Nic) (t : Trace) → writes p t ≤ writes p (recieve hw nic t).1
  unfolding recieve accept
  recieve-writes p nic t = ground arith

  recieve-Keeps :
      (nic : Nic) (t : Trace) → IsOffset nic.rxbuf_offset → Keeps nic (recieve hw nic t).0
  recieve-Keeps nic t at = record {
    offset = recieve-IsOffset hw t nic at;
    iobase = recieve-iobase nic t;
    packet_buf = recieve-packet_buf nic t;
    memory = λ a away. recieve_elsewhere hw t nic a away;
  }

  -- One round: the status is read and acknowledged, and a packet is taken.
  abbrev status : Nic → Trace → ℕ
  status nic t = u16 (hw t (inp 16 (u16 (port nic 0x3E))))

  abbrev acknowledged : Nic → Trace → Trace
  acknowledged nic t =
      out 16 (u16 (port nic 0x3E)) (u16 (status nic t)) ∷ inp 16 (u16 (port nic 0x3E)) ∷ t

  abbrev taken : Nic → Trace → Nic × Trace
  taken nic t =
      if is_set (status nic t) 0x01
      then recieve hw nic (acknowledged nic t)
      else (nic, acknowledged nic t)

  isr_loop-done :
      (fuel : ℕ) (nic : Nic) (t : Trace)
      → causes hw nic t ≡ 0
      → isr_loop hw (suc fuel) nic t ≡ (some nic, acknowledged nic t)
  unfolding isr_loop
  isr_loop-done fuel nic t quiet = rw (quiet, isr_loop) refl

  isr_loop-again :
      (fuel : ℕ) (nic : Nic) (t : Trace)
      → (causes hw nic t == 0) ≡ false
      → isr_loop hw (suc fuel) nic t ≡ isr_loop hw fuel (taken nic t).0 (taken nic t).1
  unfolding isr_loop
  isr_loop-again fuel nic t told = elim (Bool-cases (is_set (status nic t) 0x01)) [
    | inl packet ↦ rw (told, packet, isr_loop) refl
    | inr other ↦ rw (told, other, isr_loop) refl
  ]

  taken-Keeps : (nic : Nic) (t : Trace) → IsOffset nic.rxbuf_offset → Keeps nic (taken nic t).0
  taken-Keeps nic t at = elim (Bool-cases (is_set (status nic t) 0x01)) [
    | inl packet ↦ rw packet (recieve-Keeps nic (acknowledged nic t) at)
    | inr other ↦ rw other (Keeps-same nic at)
  ]

  acknowledged-writes :
      (nic : Nic) (t : Trace)
      → writes (u16 (port nic 0x3E)) (acknowledged nic t) ≡ 1 + writes (u16 (port nic 0x3E)) t
  acknowledged-writes nic t = ground arith

  taken-writes :
      (nic : Nic) (t : Trace)
      → writes (u16 (port nic 0x3E)) t < writes (u16 (port nic 0x3E)) (taken nic t).1
  taken-writes nic t = elim (Bool-cases (is_set (status nic t) 0x01)) [
    | inl packet ↦ rw packet (
        omega (
          arith,
          recieve-writes (u16 (port nic 0x3E)) nic (acknowledged nic t),
          acknowledged-writes nic t,
        ))
    | inr other ↦ rw other (omega (arith, acknowledged-writes nic t))
  ]

  isr_loop-ends :
      (fuel n : ℕ) (nic : Nic) (t : Trace)
      → IsOffset nic.rxbuf_offset
      → Settles n hw nic
      → n ≤ writes (u16 (port nic 0x3E)) t + fuel
      → (after : Nic) × (t' : Trace) × (isr_loop hw (suc fuel) nic t ≡ (some after, t'))
        × Keeps nic after
  isr_loop-ends zero n nic t at settles enough =
      (nic, acknowledged nic t, isr_loop-done 0 nic t (settles t (omega arith)), Keeps-same nic at)
  isr_loop-ends (suc fuel) n nic t at settles enough = elim (Bool-cases (causes hw nic t == 0)) [
    | inl quiet ↦
        (nic, acknowledged nic t, isr_loop-done (suc fuel) nic t (ground arith), Keeps-same nic at)
    | inr told ↦
        let kept = taken-Keeps nic t at in
        let same : port (taken nic t).0 0x3E ≡ port nic 0x3E =
          ap (λ (base : ℕ). u32 (base + 0x3E)) kept.iobase in
        let (after, t', run, later) =
          isr_loop-ends fuel n (taken nic t).0 (taken nic t).1 kept.offset
            (subst
              (λ (p : ℕ).
                (t : Trace)
                → n ≤ writes (u16 p) t
                → u8 (bit_and (u16 (hw t (inp 16 (u16 p)))) int_all) ≡ 0)
              (sym same) settles)
            (subst (λ (p : ℕ). n ≤ writes (u16 p) (taken nic t).1 + fuel) (sym same)
              (omega (arith, taken-writes nic t))) in
        (
          after,
          t',
          isr_loop-again (suc fuel) nic t told ∙ run,
          Keeps-trans nic (taken nic t).0 after kept later,
        )
  ]

  -- If the receive offset is a multiple of 4 below 32768 and the card tells no interrupt once its
  -- status register has been written n times, then the interrupt handler ends within n + 1 rounds
  -- of its loop, with a write to the status register and the end of the interrupt as its last
  -- accesses; the receive offset is again such a multiple, and no byte outside the packet buffer
  -- is changed.
  pub isr-ends :
      (n : ℕ) (send_eoi : Io (Unit {0})) (nic : Nic) (t : Trace)
      → IsOffset nic.rxbuf_offset
      → Settles n hw nic
      → (after : Nic) × (t' : Trace) × (isr hw send_eoi (suc n) nic t
          ≡ (some after, (send_eoi (out 16 (u16 (port nic 0x3E)) 0x5 ∷ t')).1))
        × Keeps nic after
  unfolding isr
  isr-ends n send_eoi nic t at settles =
      let (after, t', run, kept) = isr_loop-ends n n nic t at settles (omega arith) in
      (
        after,
        t',
        ap
            (λ (r : Option Nic × Trace).
              (r.0, (send_eoi (out 16 (u16 (port nic 0x3E)) 0x5 ∷ r.1)).1))
            run,
        kept,
      )
