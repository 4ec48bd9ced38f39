-- ===== src/Dev/Tests.antt =====
-- A machine with one network card, at bus 0 and slot 3, that has received one packet, and a timer.
use qnixx.Common.{
  zero, suc, ap, length, some, ◌≤◌, ℕ, ◌+◌, ◌-◌, ◌*◌, ◌/◌, ◌%◌, ◌^◌, ◌<◌, ◌≡◌, refl, true, false,
  [], ◌∷◌, arith, ◌==◌, if◌then◌else◌,
}
use qnixx.Common.Word.{u16, u64}
use qnixx.Amd64.Io.{Hardware, Trace, emit, store, out, inp, load, search_loop}
use qnixx.Dev.Pci.{config_addr, config_readw, init_dev, probe, pci_find}
use qnixx.Dev.Pci.Find.{ConfigSpace, device_at, fits, pci_find-some, pci_find-none}
use qnixx.Dev.Hpet.{Hpet, hpet_sleep}
use qnixx.Dev.Hpet.Sleep.{reads, count_at, Ticks, hpet_sleep-ends}
use qnixx.Dev.Rtl8139.{
  Nic, port, packet_at, packet_len, received, recieve, isr, rtl8139_send_packet, is_bad,
}
use qnixx.Dev.Rtl8139.Receive.{IsOffset, recieve-copies}
use qnixx.Dev.Rtl8139.Interrupt.{writes, Settles, Keeps, isr-ends}
use qnixx.Dev.Rtl8139.Send.{rtl8139_send_packet-first}

abbrev space : ℕ → ℕ
space a = if a == 0x80001800 then 0x813910EC else 0xFFFFFFFF

abbrev bus_hardware : Hardware
bus_hardware (out _ _ a ∷ t) (inp _ _) = space a
bus_hardware _ _ = 0

config : ConfigSpace bus_hardware space
config = record { answers = λ t a. refl }

pci_find-some_example :
    (bus : ℕ) × (slot : ℕ) × (func : ℕ) × (bus < 5)
    × (slot < 32)
    × (func < 8)
    × (fits space 0x10EC 0x8139 bus slot func ≡ true)
    × (device_at space 0 3 0 ≡ device_at space bus slot func)
unfolding pci_find search_loop probe init_dev config_readw config_addr
pci_find-some_example =
    pci_find-some space bus_hardware config 0x10EC 0x8139 [] (device_at space 0 3 0) refl

pci_find-none_example : fits space 0x10EC 0x8029 1 2 3 ≡ false
unfolding pci_find search_loop probe init_dev config_readw config_addr
pci_find-none_example =
    pci_find-none space bus_hardware config 0x10EC 0x8029 [] 1 2 3 refl (omega arith) (omega arith)
      (omega arith)

abbrev nic : Nic
nic = record {
  iobase = 0xC000;
  rxbuf = 0x10000;
  txbufs = λ _. 0;
  outside = 0;
  next_txbuf = 3;
  rxbuf_offset = 32700;
  packet_buf = 0x20000;
  mac_addr = λ _. 0;
  memory = λ _. 0;
}

-- A header with the status 1 and the length 64, behind which all bytes are 9. The transmit buffer 0
-- is free.
abbrev card : Hardware
card t (load _ a) =
    if a == 0x10000 + 32700
    then 1
    else (if a == 0x10000 + 32701
        then 0
        else (if a == 0x10000 + 32702 then 64 else (if a == 0x10000 + 32703 then 0 else 9)))
card t (inp _ p) = if p == 0xC010 then 0x2000 else 0
card t _ = 0

offset : IsOffset 32700
offset = record { inside = omega arith; aligned = refl }

recieve-copies_example :
    ((recieve card nic []).0.memory (0x20000 + 5) ≡ received card [] (packet_at nic + 4 + 5))
    × ((recieve card nic []).0.rxbuf_offset ≡ (32700 + packet_len card [] nic + 7) / 4 * 4 % 32768)
    × ((recieve card nic []).1
        ≡ out 16
            (u16 (port nic 0x38))
            (u16 (u64 ((recieve card nic []).0.rxbuf_offset + 2 ^ 64 - 0x10)))
          ∷ [])
unfolding is_bad
recieve-copies_example = recieve-copies card [] nic 5 offset refl (omega arith)

rtl8139_send_packet-first_example :
    ((rtl8139_send_packet card 0 nic 0x30000 100 []).0.next_txbuf ≡ 1)
    × ((earlier : Trace) × ((rtl8139_send_packet card 0 nic 0x30000 100 []).1
          ≡ out 32 0xC010 100 ∷ earlier))
rtl8139_send_packet-first_example =
    rtl8139_send_packet-first card (λ p. if p == 0xC010 then 0x2000 else 0)
      (record { holds = λ t p. refl }) nic 0 0x30000 100 1 [] (omega arith) (omega arith)
      (omega arith) refl (λ i lt. ground arith)

-- A counter that goes on by one with each access, and a period of a tenth of a millisecond.
abbrev counting : Hardware
counting t _ = length t

abbrev hpet : Hpet
hpet = record { hpet_base = 0x1000; hpet_period = 100000000000 }

counts : (n : ℕ) → count_at counting 0x1000 n [] ≡ n
counts zero = refl
counts (suc n) = ap suc (counts n)

ticking : Ticks counting 0x1000 11 []
ticking n few = rw (counts n) (omega arith, omega arith)

hpet_sleep-ends_example :
    (n : ℕ) × (n ≤ 11)
    × (hpet_sleep counting 11 0 hpet 1 [] ≡ (some 0, reads counting 0x1000 (suc n) []))
    × (0 + 10 ≤ count_at counting 0x1000 n [])
hpet_sleep-ends_example = hpet_sleep-ends counting hpet 1 [] (omega arith) ticking

-- The card tells the packet until the interrupt is acknowledged.
abbrev telling_card : Hardware
telling_card t (inp w p) =
    if p == 0xC03E then (if writes 0xC03E t == 0 then 1 else 0) else card t (inp w p)
telling_card t e = card t e

settles : Settles 1 telling_card nic
settles t enough = let told : (writes 0xC03E t == 0) ≡ false = ground arith in rw told refl

isr-ends_example :
    (after : Nic) × (t' : Trace) × (isr telling_card (emit (store 32 0xFEE000B0 0)) 2 nic []
      ≡ (some after, store 32 0xFEE000B0 0 ∷ out 16 0xC03E 0x5 ∷ t'))
    × Keeps nic after
isr-ends_example = isr-ends telling_card 1 (emit (store 32 0xFEE000B0 0)) nic [] offset settles
