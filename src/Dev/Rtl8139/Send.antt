-- ===== src/Dev/Rtl8139/Send.antt =====
-- The transmit path: the buffer that is chosen, and what is told to the card.
use qnixx.Common.{
  ◌≤◌, ℕ, ◌+◌, ◌*◌, ◌%◌, ◌<◌, ◌≡◌, ◌≢◌, refl, ◌∙◌, Bool, true, false, ltb, if◌then◌else◌, ◌==◌,
  ne→==, none, some, arith, ◌∷◌,
}
use qnixx.Common.Word.{u16, u32}
use qnixx.Amd64.Io.{Hardware, Trace, out, inp, search_loop}
use qnixx.Amd64.Io.Search.{first-at, search_loop-first}
use qnixx.Dev.Rtl8139.{
  packet_size_max, Nic, port, is_set, try_txbuf, send_with, rtl8139_send_packet,
}

-- The status registers hold their values while they are read.
pub record Steady (hw : Hardware) (registers : ℕ → ℕ) : Type 0 where
  pub holds : (t : Trace) (p : ℕ) → hw t (inp 32 p) ≡ registers p

module _ (hw : Hardware) (registers : ℕ → ℕ) (steady : Steady hw registers) (nic : Nic) where
  -- The buffer that is tried in a round, and whether the card has given it back.
  abbrev pub candidate : ℕ → ℕ
  candidate i = (nic.next_txbuf + i) % 4

  abbrev pub is_free : ℕ → Bool
  is_free i = is_set (u32 (registers (u16 (port nic (0x10 + candidate i * 4))))) 0x2000

  try_txbuf_lem :
      (i : ℕ) (t : Trace)
      → (try_txbuf hw nic i t).0 ≡ (if is_free i then some (candidate i) else none)
  unfolding try_txbuf
  try_txbuf_lem i t = rw (steady.holds t (u16 (port nic (0x10 + candidate i * 4)))) refl

  search-candidate :
      (k : ℕ) (t : Trace)
      → k < 4
      → is_free k ≡ true
      → ((i : ℕ) → i < k → is_free i ≡ false)
      → (search_loop 4 0 (try_txbuf hw nic) t).0 ≡ some (candidate k)
  search-candidate k t within free before =
      search_loop-first 4 0 (try_txbuf hw nic) (λ i. if is_free i then some (candidate i) else none)
        try_txbuf_lem t
      ∙ first-at 4 0 k _ (omega arith) within (rw free refl) (λ i low lt. rw (before i lt) refl)

  -- If the card was found, the size is at most 0x600, the transmit status registers hold their
  -- values while they are read, and the k-th buffer from the next one on, k below 4, is the first
  -- that the card has given back, then rtl8139_send_packet makes the buffer behind it the next
  -- one, and ends by writing the size, or 60 where it is less, to the status register of the
  -- buffer.
  pub rtl8139_send_packet-first :
      (higher_half payload size k : ℕ) (t : Trace)
      → size ≤ packet_size_max
      → nic.iobase ≢ 0
      → k < 4
      → is_free k ≡ true
      → ((i : ℕ) → i < k → is_free i ≡ false)
      → ((rtl8139_send_packet hw higher_half nic payload size t).0.next_txbuf
          ≡ (candidate k + 1) % 4)
        × ((earlier : Trace) × ((rtl8139_send_packet hw higher_half nic payload size t).1
              ≡ out 32
                  (u16 (port nic (0x10 + candidate k * 4)))
                  (u32 (if ltb size 60 then 60 else size))
                ∷ earlier))
  unfolding rtl8139_send_packet send_with
  rtl8139_send_packet-first higher_half payload size k t bounded found within free before =
      let e : (nic.iobase == 0) ≡ false = ne→== nic.iobase 0 found in
      rw (e, search-candidate k t within free before) (refl, (_, refl))
