-- ===== src/Amd64/Apic/Lapic.antt =====
-- sys/amd64/lapic.c. `base` is `g_lapic_mmio_base + VMM_HIGHER_HALF`.
use qnixx.Common.{ℕ, ◌+◌, ◌-◌, ◌*◌, ◌/◌, ◌^◌, ◌&&◌, ◌==◌, if◌then◌else◌}
use qnixx.Common.Word.{u16, u32, u64}
use qnixx.Amd64.Io.{Hardware, Io, pure, ◌>>=◌, ◌>>◌, emit, store, load, receive}
use qnixx.Common.{Option, none, some}
use qnixx.Dev.Hpet.{Hpet, hpet_sleep}
use qnixx.Amd64.Idt.{Idt, alloc_int_vector, register_interrupt}

abbrev pub lapic_write : ℕ → (reg value : ℕ) → Io (Unit {0})
lapic_write base reg value = emit (store 32 (u64 (base + u16 reg)) (u32 value))

-- What a sleep goes by: the timer, the lock of hpet.c, and the rounds that it is given.
pub record Clock : Type 0 where
  pub hpet : Hpet
  pub lock : ℕ
  pub fuel : ℕ

-- The timer counts down from its highest value, with the divisor 16 and its interrupt masked.
unfoldable pub start_countdown : ℕ → Io (Unit {0})
start_countdown base = do
  lapic_write base 0x03e0 0x3
  lapic_write base 0x0320 (0xFF + 2 ^ 16)
  lapic_write base 0x0380 0xFFFFFFFF

module _ (hw : Hardware) where
  abbrev pub lapic_read : ℕ → (reg : ℕ) → Io ℕ
  lapic_read base reg = do value ← receive hw (load 32 (u64 (base + u16 reg))); pure (u32 value)

  unfoldable pub lapic_read_id : ℕ → Io ℕ
  lapic_read_id base = do id ← lapic_read base 0x0020; pure (id / 2 ^ 24)

  -- What follows the sleep, if that has ended.
  unfoldable pub end_countdown : ℕ → (slept : Option ℕ) → Io (Option ℕ)
  end_countdown base none = pure none
  end_countdown base (some lock) = do
    count ← lapic_read base 0x0390
    lapic_write base 0x0380 0
    lapic_write base 0x0380 (2 ^ 16)
    pure (some ((0xFFFFFFFF - count) / 10))

  -- The frequency, which the callers keep in the descriptor of the core: the search of `this_core`
  -- for it is not part of this function's model. `none`: the sleep does not end within its rounds.
  unfoldable pub lapic_timer_calibrate : Clock → ℕ → Io (Option ℕ)
  lapic_timer_calibrate clock base = do
    start_countdown base
    slept ← hpet_sleep hw clock.fuel clock.lock clock.hpet 10
    end_countdown base slept

unfoldable pub lapic_send_eoi : ℕ → Io (Unit {0})
lapic_send_eoi base = lapic_write base 0x00b0 0

unfoldable pub lapic_timer_oneshot : ℕ → (timer_vector lapic_freq ms : ℕ) → Io (Unit {0})
lapic_timer_oneshot base timer_vector lapic_freq ms = do
  lapic_write base 0x0380 0
  lapic_write base 0x0320 (2 ^ 16)
  lapic_write base 0x0320 timer_vector
  lapic_write base 0x03e0 3
  lapic_write base 0x0380 (u64 (lapic_freq * ms))

-- The file's variables, with what they share: the interrupt table and the next free vector.
pub record Vectors : Type 0 where
  pub timer_vector : ℕ
  pub goto_vector : ℕ
  pub next_vector : ℕ
  pub idt : Idt

-- The first core to come here takes the two vectors. `timer_isr` is the address of
-- `__lapic_timer_isr`.
unfoldable pub take_vectors : (timer_isr : ℕ) → Vectors → Vectors
take_vectors timer_isr v =
    let (goto_vector, next) = alloc_int_vector v.next_vector in
    let (timer_vector, later) = alloc_int_vector next in
    record {
      goto_vector = goto_vector;
      timer_vector = timer_vector;
      next_vector = later;
      idt = register_interrupt v.idt timer_vector timer_isr;
    }

unfoldable pub lapic_init : ℕ → (timer_isr : ℕ) → Vectors → Io Vectors
lapic_init base timer_isr v = do
  lapic_write base 0x00d0 0x01000000
  lapic_write base 0x00f0 0x1FF
  pure (if (v.goto_vector == 0) && (v.timer_vector == 0) then take_vectors timer_isr v else v)

abbrev pub lapic_get_timer_vector : Vectors → ℕ
lapic_get_timer_vector v = v.timer_vector

abbrev pub lapic_get_goto_vector : Vectors → ℕ
lapic_get_goto_vector v = v.goto_vector

-- Its body is empty.
abbrev pub lapic_send_ipi : (lapic_id vector shorthand : ℕ) → Io (Unit {0})
lapic_send_ipi lapic_id vector shorthand = pure tt
