-- ===== src/Amd64/Io.antt =====
-- sys/amd64/io.c, and accesses to device registers in memory. The hardware is a parameter: what a
-- read gives, as a function of everything that was read and written before, the last access first.
pub mod Search
use qnixx.Common.{ℕ, zero, suc, ◌+◌, Option, none, some, List, [], ◌∷◌, Bool, true, false}
use qnixx.Common.Word.{u8, u16, u32}

-- An access to a port or to memory, with its width in bits.
pub data Event : Type 0 where
  out : (width port value : ℕ) → Event
  inp : (width port : ℕ) → Event
  store : (width address value : ℕ) → Event
  load : (width address : ℕ) → Event

abbrev pub Trace : Type 0
Trace = List Event

abbrev pub Hardware : Type 0
Hardware = Trace → Event → ℕ

-- A program that accesses devices: its result, and the trace that it leaves.
abbrev pub Io : Type 0 → Type 0
Io A = Trace → A × Trace

abbrev pub pure : {A : Type 0} → A → Io A
pure a t = (a, t)

infixl 5 ◌>>=◌ ◌>>◌
abbrev pub ◌>>=◌ : {A B : Type 0} → Io A → (A → Io B) → Io B
◌>>=◌ m f t = f (m t).0 (m t).1

abbrev pub ◌>>◌ : {B : Type 0} → Io (Unit {0}) → Io B → Io B
◌>>◌ m k t = k (m t).1

abbrev pub emit : Event → Io (Unit {0})
emit e t = (tt, e ∷ t)

-- `__amd64_outb`, `__amd64_outw`, `__amd64_outl`: the arguments are converted to their types.
abbrev pub outb : ℕ → ℕ → Io (Unit {0})
outb port value = emit (out 8 (u16 port) (u8 value))

abbrev pub outw : ℕ → ℕ → Io (Unit {0})
outw port value = emit (out 16 (u16 port) (u16 value))

abbrev pub outl : ℕ → ℕ → Io (Unit {0})
outl port value = emit (out 32 (u16 port) (u32 value))

-- `__amd64_io_wait`
abbrev pub io_wait : Io (Unit {0})
io_wait = emit (out 8 0x80 0)

module _ (hw : Hardware) where
  abbrev pub receive : Event → Io ℕ
  receive e t = (hw t e, e ∷ t)

  -- `__amd64_inb`, `__amd64_inw`, `__amd64_inl`
  abbrev pub inb : ℕ → Io ℕ
  inb port t = (u8 (hw t (inp 8 (u16 port))), inp 8 (u16 port) ∷ t)

  abbrev pub inw : ℕ → Io ℕ
  inw port t = (u16 (hw t (inp 16 (u16 port))), inp 16 (u16 port) ∷ t)

  abbrev pub inl : ℕ → Io ℕ
  inl port t = (u32 (hw t (inp 32 (u16 port))), inp 32 (u16 port) ∷ t)

-- `for (i = start; ...; ++i)` for a number of rounds, left as soon as a round returns a value.
unfoldable pub search_loop : {A : Type 0} → ℕ → ℕ → (ℕ → Io (Option A)) → Io (Option A)
search_loop zero i body t = (none, t)
search_loop (suc n) i body t = elim (body i t).0 [
  | none ↦ search_loop n (i + 1) body (body i t).1
  | some a ↦ (some a, (body i t).1)
]

-- `for (i = start; ...; ++i)` for a number of rounds.
unfoldable pub each : ℕ → ℕ → (ℕ → Io (Unit {0})) → Io (Unit {0})
each zero i body t = (tt, t)
each (suc n) i body t = each n (i + 1) body (body i t).1
