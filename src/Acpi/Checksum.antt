-- ===== src/Acpi/Checksum.antt =====
-- The checksum of a table, and the interrupt overrides.
use qnixx.Common.{
  ℕ, zero, suc, ◌+◌, ◌*◌, ◌%◌, ◌<◌, ◌≡◌, refl, ap, ◌⊎◌, Bool, true, ◌==◌, Bool-cases, inl, inr,
  if◌then◌else◌, arith,
}
use qnixx.Common.Word.{u8, u64}
use qnixx.Libkern.Memory.{Memory}
use qnixx.Libkern.String.{memcmp}
use qnixx.Acpi.Tables.{header_at, read32}
use qnixx.Acpi.{sum_from, do_checksum, acpi_query, query_from, Acpi}

-- The sum of the bytes of a block.
unfoldable pub byte_sum : Memory → ℕ → ℕ → ℕ
byte_sum memory zero a = 0
byte_sum memory (suc n) a = memory a + byte_sum memory n (a + 1)

sum_from_lem :
    (memory : Memory) (n a sum : ℕ)
    → sum < 256
    → sum_from memory n a sum ≡ (sum + byte_sum memory n a) % 256
unfolding sum_from byte_sum
sum_from_lem memory zero a sum small = omega (arith, small)
sum_from_lem memory (suc n) a sum small =
    omega (arith, sum_from_lem memory n (a + 1) (u8 (sum + memory a)) (omega arith))

-- The wrapping byte sum of do_checksum is 0 exactly if the sum of the bytes of the table, as many
-- as its length says, is a multiple of 256.
pub do_checksum_lem :
    (memory : Memory) (header : ℕ)
    → do_checksum memory header
      ≡ (byte_sum memory (header_at memory header).length header % 256 == 0)
unfolding do_checksum
do_checksum_lem memory header =
    let n = (header_at memory header).length in
    let sum : sum_from memory n header 0 % 256 ≡ byte_sum memory n header % 256 =
      omega (arith, sum_from_lem memory n header 0 (omega arith)) in
    ap (λ (t : ℕ). t == 0) sum

query_from-step :
    (memory : Memory) (higher_half left rsdt : ℕ) (query : Memory) (n i : ℕ) {differs : Bool}
    → (memcmp (λ k. memory (u64 (read32 memory (rsdt + 36 + 4 * i) + higher_half) + k)) query n
        == 0)
      ≡ differs
    → query_from memory higher_half (suc left) rsdt query n i ≡ (
        if differs
        then (if do_checksum memory (u64 (read32 memory (rsdt + 36 + 4 * i) + higher_half))
            then u64 (read32 memory (rsdt + 36 + 4 * i) + higher_half)
            else 0)
        else query_from memory higher_half left rsdt query n (i + 1))
unfolding query_from
query_from-step memory higher_half left rsdt query n i h = rw (h, query_from) refl

checked :
    (memory : Memory) (table : ℕ)
    → ((if do_checksum memory table then table else 0) ≡ 0)
      ⊎ (do_checksum memory (if do_checksum memory table then table else 0) ≡ true)
checked memory table = elim (Bool-cases (do_checksum memory table)) [
  | inl good ↦ inr (rw (good, good) refl)
  | inr bad ↦ inl (rw bad refl)
]

query_from-checksum :
    (memory : Memory) (higher_half left rsdt : ℕ) (query : Memory) (n i : ℕ)
    → (query_from memory higher_half left rsdt query n i ≡ 0)
      ⊎ (do_checksum memory (query_from memory higher_half left rsdt query n i) ≡ true)
unfolding query_from
query_from-checksum memory higher_half zero rsdt query n i = inl refl
query_from-checksum memory higher_half (suc left) rsdt query n i = elim (Bool-cases _) [
  | inl found ↦
      rw (query_from-step memory higher_half left rsdt query n i found)
        (checked memory (u64 (read32 memory (rsdt + 36 + 4 * i) + higher_half)))
  | inr other ↦
      rw (query_from-step memory higher_half left rsdt query n i other)
        (query_from-checksum memory higher_half left rsdt query n (i + 1))
]

-- Whatever is in memory, acpi_query returns NULL or the address of a table with a good checksum.
pub acpi_query-checksum :
    (memory : Memory) (higher_half : ℕ) (acpi : Acpi) (query : Memory) (n : ℕ)
    → (acpi_query memory higher_half acpi query n ≡ 0)
      ⊎ (do_checksum memory (acpi_query memory higher_half acpi query n) ≡ true)
unfolding acpi_query
acpi_query-checksum memory higher_half acpi query n =
    query_from-checksum memory higher_half acpi.rsdt_entry_count acpi.rsdt query n 0
