-- ===== src/Dev/Rtl8139/Receive.antt =====
-- The receive path: what is copied, and where the ring buffer goes on.
use qnixx.Common.{
  ℕ, zero, suc, ◌+◌, ◌-◌, ◌*◌, ◌/◌, ◌%◌, ◌^◌, ◌≤◌, ◌<◌, ◌≡◌, refl, ◌∙◌, ap, ◌⊎◌, inl, inr, Bool,
  true, false, ◌&&◌, ◌∷◌, arith, ltb, leb, if◌then◌else◌, bit_and, update, Bool-cases,
}
use qnixx.Common.BitLaws.{bit_and-shift, bit_and-ones}
use qnixx.Common.Word.{u16, u64, align_down}
use qnixx.Libkern.Memory.{Memory}
use qnixx.Amd64.Io.{Hardware, Trace, out}
use qnixx.Dev.Rtl8139.{
  Nic, port, is_bad, next_offset, recieve, received, copy_packet, accept, packet_at, packet_status,
  packet_len, rx_buffer_size,
}

-- Where the ring buffer may go on: a dword of the buffer.
pub record IsOffset (offset : ℕ) : Type 0 where
  pub inside : offset < 32768
  pub aligned : offset % 4 ≡ 0

and_dword_mask : (a : ℕ) → bit_and a (2 ^ 64 - 4) ≡ a / 4 % 2 ^ 62 * 4
and_dword_mask a = bit_and-shift 2 a (2 ^ 62 - 1) ∙ ap (λ (t : ℕ). t * 4) (bit_and-ones 62 (a / 4))

pub next_offset_lem :
    (offset len : ℕ)
    → offset < 32768
    → len < 2 ^ 16
    → next_offset offset len ≡ (offset + len + 7) / 4 * 4 % 32768
unfolding next_offset align_down
next_offset_lem offset len inside short = rw (and_dword_mask (offset + len + 4 + 3)) (omega arith)

pub next_offset-IsOffset :
    (offset len : ℕ) → offset < 32768 → len < 2 ^ 16 → IsOffset (next_offset offset len)
next_offset-IsOffset offset len inside short =
    let eq = next_offset_lem offset len inside short in
    record { inside = omega (arith, eq); aligned = omega (arith, eq) }

-- A packet that is kept has a length within the bounds.
pub is_bad-bounds : (status len : ℕ) → is_bad status len ≡ false → (22 ≤ len) × (len < 1536)
unfolding is_bad
is_bad-bounds status len good = ground arith

module _ (hw : Hardware) (t : Trace) where
  pub copy_packet_lem :
      (n dst src : ℕ) (memory : Memory) (a : ℕ)
      → copy_packet hw t dst src n memory a
        ≡ (if leb dst a && ltb a (dst + n) then received hw t (src + (a - dst)) else memory a)
  unfolding copy_packet
  copy_packet_lem zero dst src memory a = ground arith
  copy_packet_lem (suc n) dst src memory a =
      ground
        (arith, copy_packet_lem n (dst + 1) (src + 1) (update memory dst (received hw t src)) a)

  abbrev pub packet_is_bad : Nic → Bool
  packet_is_bad nic = is_bad (packet_status hw t nic) (packet_len hw t nic)

  packet_len-bound : (nic : Nic) → packet_len hw t nic < 2 ^ 16
  packet_len-bound nic = omega arith

  recieve-bad : (nic : Nic) → packet_is_bad nic ≡ true → recieve hw nic t ≡ (nic, t)
  unfolding recieve
  recieve-bad nic bad = rw bad refl

  recieve-good : (nic : Nic) → packet_is_bad nic ≡ false → recieve hw nic t ≡ accept hw nic t
  unfolding recieve
  recieve-good nic good = rw good refl

  accept_offset :
      (nic : Nic)
      → nic.rxbuf_offset < 32768
      → (accept hw nic t).0.rxbuf_offset
        ≡ (nic.rxbuf_offset + packet_len hw t nic + 7) / 4 * 4 % 32768
  unfolding accept
  accept_offset nic inside =
      omega (
        arith,
        next_offset_lem nic.rxbuf_offset (packet_len hw t nic) inside (packet_len-bound nic),
      )

  accept_memory :
      (nic : Nic) (a : ℕ)
      → (accept hw nic t).0.memory a ≡ (
          if leb nic.packet_buf a && ltb a (nic.packet_buf + (packet_len hw t nic - 4))
          then received hw t (packet_at nic + 4 + (a - nic.packet_buf))
          else nic.memory a)
  unfolding accept
  accept_memory nic a =
      copy_packet_lem (packet_len hw t nic - 4) nic.packet_buf (packet_at nic + 4) nic.memory a

  accept_trace :
      (nic : Nic)
      → nic.rxbuf_offset < 32768
      → (accept hw nic t).1
        ≡ out 16
            (u16 (port nic 0x38))
            (u16 (u64 ((accept hw nic t).0.rxbuf_offset + 2 ^ 64 - 0x10)))
          ∷ t
  unfolding accept
  accept_trace nic inside =
      let at =
        next_offset-IsOffset nic.rxbuf_offset (packet_len hw t nic) inside (packet_len-bound nic) in
      let same : next_offset nic.rxbuf_offset (packet_len hw t nic) % rx_buffer_size
          ≡ next_offset nic.rxbuf_offset (packet_len hw t nic) =
        omega (arith, at.inside) in
      rw same refl

  -- If the receive offset is a dword of the ring buffer and the packet there is not bad, recieve
  -- takes the length from the second 16-bit word at the offset, copies each byte behind the
  -- header, up to the length less 4, to the packet buffer, moves the offset past the header and
  -- the packet to the next dword modulo 32768, and writes the offset less 16 to the CAPR
  -- register.
  pub recieve-copies :
      (nic : Nic) (i : ℕ)
      → IsOffset nic.rxbuf_offset
      → packet_is_bad nic ≡ false
      → i + 4 < packet_len hw t nic
      → ((recieve hw nic t).0.memory (nic.packet_buf + i) ≡ received hw t (packet_at nic + 4 + i))
        × ((recieve hw nic t).0.rxbuf_offset
            ≡ (nic.rxbuf_offset + packet_len hw t nic + 7) / 4 * 4 % 32768)
        × ((recieve hw nic t).1
            ≡ out 16
                (u16 (port nic 0x38))
                (u16 (u64 ((recieve hw nic t).0.rxbuf_offset + 2 ^ 64 - 0x10)))
              ∷ t)
  recieve-copies nic i at good within = rw (recieve-good nic good) (
    ground (arith, accept_memory nic (nic.packet_buf + i)),
    accept_offset nic at.inside,
    accept_trace nic at.inside,
  )

  -- If the receive offset is a multiple of 4 below 32768, it still is after recieve, for a packet
  -- that is kept and for one that is dropped.
  pub recieve-IsOffset :
      (nic : Nic) → IsOffset nic.rxbuf_offset → IsOffset (recieve hw nic t).0.rxbuf_offset
  recieve-IsOffset nic at = elim (Bool-cases (packet_is_bad nic)) [
    | inl bad ↦ rw (recieve-bad nic bad) at
    | inr good ↦
        let eq = accept_offset nic at.inside in
        rw (recieve-good nic good)
          (record { inside = omega (arith, eq); aligned = omega (arith, eq) })
  ]

  -- For every packet that the card may leave, recieve changes no byte outside the 1536 bytes of
  -- the packet buffer.
  pub recieve_elsewhere :
      (nic : Nic) (a : ℕ)
      → (a < nic.packet_buf) ⊎ (nic.packet_buf + 0x600 ≤ a)
      → (recieve hw nic t).0.memory a ≡ nic.memory a
  recieve_elsewhere nic a away = elim (Bool-cases (packet_is_bad nic)) [
    | inl bad ↦ rw (recieve-bad nic bad) refl
    | inr good ↦
        let bounds = is_bad-bounds (packet_status hw t nic) (packet_len hw t nic) good in
        rw (recieve-good nic good) (ground (arith, accept_memory nic a))
  ]
