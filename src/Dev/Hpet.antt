-- ===== src/Dev/Hpet.antt =====
-- sys/dev/timer/hpet.c: the timer, whose registers lie in memory, and the sleep that reads it.
pub mod Sleep
pub mod Found
pub mod Counter
use qnixx.Common.{
  ℕ, zero, suc, ◌+◌, ◌*◌, ◌/◌, ◌^◌, Bool, true, false, Option, none, some, ◌==◌, ltb, if◌then◌else◌,
  bit_and, bit_or,
}
use qnixx.Common.Word.{u16, u32, u64}
use qnixx.Libkern.Memory.{Memory}
use qnixx.Amd64.Io.{Hardware, Event, Io, pure, ◌>>=◌, ◌>>◌, emit, store, load, receive}
use qnixx.Acpi.{Acpi, acpi_query}
use qnixx.Acpi.Tables.{hpet_at}
use qnixx.Sync.Mutex.{mutex_acquire, mutex_release}

abbrev pub hpet_reg_cap : ℕ
hpet_reg_cap = 0x0

abbrev pub hpet_reg_conf : ℕ
hpet_reg_conf = 0x10

abbrev pub hpet_reg_counter : ℕ
hpet_reg_counter = 0x0F0

-- `hpet_base` and `hpet_period`.
pub record Hpet : Type 0 where
  pub hpet_base : ℕ
  pub hpet_period : ℕ

abbrev pub hpet_write : ℕ → (reg value : ℕ) → Io (Unit {0})
hpet_write base reg value = emit (store 64 (u64 (base + u16 reg)) (u64 value))

-- The access to a register, and what it gives.
abbrev pub hpet_load : ℕ → (reg : ℕ) → Event
hpet_load base reg = load 64 (u64 (base + u16 reg))

-- `hpet->base.base`, behind the header of the table.
abbrev pub hpet_address : Memory → ℕ → ℕ
hpet_address memory hpet = (hpet_at memory hpet).base.base

module _ (hw : Hardware) where
  abbrev pub hpet_read : ℕ → (reg : ℕ) → Io ℕ
  hpet_read base reg = do value ← receive hw (hpet_load base reg); pure (u64 value)

  -- The counter is set to 0 and enabled.
  unfoldable pub enable : ℕ → Io (Option Hpet)
  enable base = do
    period ← hpet_read base hpet_reg_cap
    hpet_write base hpet_reg_counter 0
    conf ← hpet_read base hpet_reg_conf
    hpet_write base hpet_reg_conf (bit_or conf 1)
    pure (some (record { hpet_base = base; hpet_period = period / 2 ^ 32 }))

  unfoldable pub check_period : ℕ → Io (Option Hpet)
  check_period base = do
    cap ← hpet_read base hpet_reg_cap
    if cap / 2 ^ 32 == 0 then pure none else enable base

  -- The registers of a timer at a base address. `none`: the processor is halted, for the timer has
  -- no second register or no period.
  unfoldable pub start_timer : ℕ → Io (Option Hpet)
  start_timer base = do
    cap ← hpet_read base hpet_reg_cap
    if ltb (bit_and (cap / 2 ^ 8) 0x1F + 1) 2 then pure none else check_period base

  -- `query` holds the bytes of "HPET". `none` is also that there is no such table.
  unfoldable pub hpet_init : Memory → (higher_half : ℕ) → Acpi → (query : Memory) → Io (Option Hpet)
  hpet_init memory higher_half acpi query =
      let hpet = acpi_query memory higher_half acpi query 4 in
      if hpet == 0 then pure none else start_timer (u64 (hpet_address memory hpet + higher_half))

  -- `while (hpet_read(HPET_REG_COUNTER) < goal)`, on fuel.
  unfoldable pub wait_until : ℕ → (base goal : ℕ) → Io (Option (Unit {0}))
  wait_until zero base goal = pure none
  wait_until (suc fuel) base goal =
      let rest = wait_until fuel base goal in
      do count ← hpet_read base hpet_reg_counter; if ltb count goal then rest else pure (some tt)

  -- The lock that is left. `none`: the lock is held, or the counter does not reach the goal, within
  -- the fuel.
  unfoldable pub hpet_sleep : (fuel lock : ℕ) → Hpet → (ms : ℕ) → Io (Option ℕ)
  hpet_sleep fuel lock hpet ms = elim (mutex_acquire fuel lock) [
    | none ↦ pure none
    | some held ↦ do
      now ← hpet_read hpet.hpet_base hpet_reg_counter
      r ← wait_until fuel hpet.hpet_base (u64 (now + u64 (ms * (1000000000000 / hpet.hpet_period))))
      pure (elim r [ none ↦ none | some _ ↦ some (mutex_release held) ])
  ]
