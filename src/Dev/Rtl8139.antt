-- ===== src/Dev/Rtl8139.antt =====
-- sys/dev/net/rtl8139.c: the network card. The receive buffer and the other buffers lie in the
-- kernel's memory. What the card has put there when it is read is given by the hardware, as a
-- load of a byte, since the card writes it on its own. `kmalloc` (by the trace so far and the size)
-- and `vmm_get_phys` are arguments. Messages to the console are left out.
pub mod Receive
pub mod Send
pub mod Startup
pub mod Line
pub mod Interrupt
pub mod Reset
use qnixx.Common.{
  ℕ, zero, suc, ◌+◌, ◌-◌, ◌*◌, ◌/◌, ◌%◌, ◌^◌, Bool, true, false, not, ◌||◌, Option, none, some,
  List, [], ◌∷◌, ◌==◌, ltb, leb, if◌then◌else◌, bit_and, bit_or, update,
}
use qnixx.Common.Word.{u8, u16, u32, u64, align_down}
use qnixx.Libkern.Memory.{Memory, memzero, memcpy}
use qnixx.Amd64.Io.{
  Hardware, Trace, load, Io, pure, ◌>>=◌, ◌>>◌, outb, outw, outl, inb, inw, inl, search_loop,
}

abbrev pub rx_buffer_size : ℕ
rx_buffer_size = 32768

abbrev pub packet_size_max : ℕ
packet_size_max = 0x600

abbrev pub packet_size_min : ℕ
packet_size_min = 0x16

abbrev pub int_all : ℕ
int_all = 0xA07F

-- The file's variables, and the memory. `outside` is the byte before `txbufs`, which the
-- index -1 reads.
pub record Nic : Type 0 where
  pub iobase : ℕ
  pub rxbuf : ℕ
  pub txbufs : ℕ → ℕ
  pub outside : ℕ
  pub next_txbuf : ℕ
  pub rxbuf_offset : ℕ
  pub packet_buf : ℕ
  pub mac_addr : ℕ → ℕ
  pub memory : Memory

-- `PORT`
abbrev pub port : Nic → ℕ → ℕ
port nic reg = u32 (nic.iobase + reg)

abbrev pub is_set : ℕ → ℕ → Bool
is_set value mask = not (bit_and value mask == 0)

-- The condition under which a packet is dropped: `is_error`, or a length out of bounds.
unfoldable pub is_bad : (status len : ℕ) → Bool
is_bad status len =
    (not (is_set status 0x1) || is_set status 0x26)
    || (leb packet_size_max len || ltb len packet_size_min)

-- `((rxbuf_offset + len + 4 + 3) & ~3) % RX_BUFFER_SIZE`
unfoldable pub next_offset : ℕ → ℕ → ℕ
next_offset offset len = align_down (offset + len + 4 + 3) 4 % rx_buffer_size

-- The packet at the offset.
abbrev pub packet_at : Nic → ℕ
packet_at nic = nic.rxbuf + nic.rxbuf_offset

module _ (hw : Hardware) where
  -- The bytes that the card has left in memory.
  abbrev pub received : Trace → Memory
  received t a = u8 (hw t (load 8 a))

  abbrev pub received_word : Trace → ℕ → ℕ
  received_word t a = received t a + 2 ^ 8 * received t (a + 1)

  unfoldable pub update_mac_addr : ℕ → Nic → Io Nic
  update_mac_addr zero nic = pure nic
  update_mac_addr (suc left) nic = do
    byte ← inb hw (port nic 0x00 + (5 - left))
    update_mac_addr left (record nic { mac_addr = update nic.mac_addr (5 - left) byte })

  unfoldable pub link_up : Nic → Io Bool
  link_up nic = do msr ← inb hw (port nic 0x58); pure (bit_and msr 0x02 == 0)

  unfoldable pub get_speed : Nic → Io ℕ
  get_speed nic = do msr ← inw hw (port nic 0x58); pure (if is_set msr 0x08 then 10 else 100)

  -- `while (inb(REG_COMMAND) & CMD_RESET);` on fuel. `none` is a card that is still in reset.
  unfoldable pub wait_reset : ℕ → Nic → Io (Option (Unit {0}))
  wait_reset zero nic = pure none
  wait_reset (suc fuel) nic = do
    command ← inb hw (port nic 0x37)
    let rest = wait_reset fuel nic in if is_set command 0x10 then rest else pure (some tt)

  -- `memcpy(packet_buf, packet + 4, len - 4)`, from what the card has written at this time.
  unfoldable pub copy_packet : Trace → (dst src n : ℕ) → Memory → Memory
  copy_packet t dst src zero memory = memory
  copy_packet t dst src (suc n) memory =
      copy_packet t (dst + 1) (src + 1) n (update memory dst (received t src))

  -- The two words of the packet's header.
  abbrev pub packet_status : Trace → Nic → ℕ
  packet_status t nic = received_word t (packet_at nic)

  abbrev pub packet_len : Trace → Nic → ℕ
  packet_len t nic = received_word t (packet_at nic + 2)

  -- The packet is copied, and the ring buffer goes on.
  unfoldable pub accept : Nic → Io Nic
  accept nic t =
      let len = packet_len t nic in
      let offset = next_offset nic.rxbuf_offset len in
      (
        record nic {
          memory = copy_packet t nic.packet_buf (packet_at nic + 4) (len - 4) nic.memory;
          rxbuf_offset = offset % rx_buffer_size;
        },
        (outw (port nic 0x38) (u64 (offset + 2 ^ 64 - 0x10)) t).1,
      )

  unfoldable pub recieve : Nic → Io Nic
  recieve nic t = if is_bad (packet_status t nic) (packet_len t nic) then (nic, t) else accept nic t

  -- `for (;;)` of `isr`, on fuel. `stat` keeps the low byte only. `none` is a loop that goes on.
  unfoldable pub isr_loop : ℕ → Nic → Io (Option Nic)
  isr_loop zero nic = pure none
  isr_loop (suc fuel) nic = do
    status ← inw hw (port nic 0x3E)
    outw (port nic 0x3E) status
    if u8 (bit_and status int_all) == 0 then pure (some nic) else (do
      after ← (if is_set status 0x01 then recieve nic else pure nic)
      isr_loop fuel after)

  -- `lapic_send_eoi` is an argument.
  unfoldable pub isr : Io (Unit {0}) → ℕ → Nic → Io (Option Nic)
  isr send_eoi fuel nic = do done ← isr_loop fuel nic; outw (port nic 0x3E) 0x5; send_eoi; pure done

  -- One round of the search for a buffer: `none` where the card owns it.
  unfoldable pub try_txbuf : Nic → ℕ → Io (Option ℕ)
  try_txbuf nic i = do
    status ← inl hw (port nic (0x10 + (nic.next_txbuf + i) % 4 * 4))
    pure (if is_set status 0x2000 then some ((nic.next_txbuf + i) % 4) else none)

  -- What is left to do with the chosen buffer, `none` being the index -1.
  unfoldable pub send_with : ℕ → Nic → (payload size : ℕ) → Option ℕ → Io Nic
  send_with higher_half nic payload size hwbuf =
      let chosen : ℕ = elim hwbuf [ none ↦ nic.outside | some i ↦ nic.txbufs i ] in
      let size = if ltb size 60 then 60 else size in
      let page = align_down (u64 (chosen + higher_half)) 0x1000 in
      let cleared = memzero nic.memory page (u64 (0x600 + 2 ^ 64 - size)) in
      let next : ℕ = elim hwbuf [ none ↦ 0 | some i ↦ (i + 1) % 4 ] in
      let reg : ℕ = elim hwbuf [ none ↦ 0x10 - 4 | some i ↦ 0x10 + i * 4 ] in
      λ t. (
        record nic { next_txbuf = next; memory = memcpy cleared page payload size },
        (outl (port nic reg) size t).1,
      )

  -- For a size of at most 0x600: beyond, the source clears memory far behind the buffer.
  unfoldable pub rtl8139_send_packet : ℕ → Nic → (payload size : ℕ) → Io Nic
  rtl8139_send_packet higher_half nic payload size = if nic.iobase == 0 then pure nic else (do
    hwbuf ← search_loop 4 0 (try_txbuf nic)
    send_with higher_half nic payload size hwbuf)
