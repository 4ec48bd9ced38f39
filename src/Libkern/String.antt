-- ===== src/Libkern/String.antt =====
-- sys/libkern/string.c: lengths, comparisons and the printing of numbers. A string is memory from an
-- index on, up to the first zero byte; the static buffers of 80 bytes are given as they were left.
pub mod Reverse
pub mod Decimal
pub mod Compare
pub mod Numeral
pub mod Hexadecimal
use qnixx.Common.{
  ℕ, zero, suc, ◌+◌, ◌-◌, ◌*◌, ◌/◌, ◌%◌, ◌^◌, Option, none, some, ◌==◌, ltb, if◌then◌else◌, bit_and,
  update,
}
use qnixx.Common.Word.{u8}

abbrev pub Chars : Type 0
Chars = ℕ → ℕ

-- `while (str[slen++]);` on fuel, with the index that is looked at. `none` is a string that goes on.
unfoldable pub strlen_from : ℕ → Chars → ℕ → Option ℕ
strlen_from zero str i = none
strlen_from (suc fuel) str i =
    let rest = strlen_from fuel str (i + 1) in if str i == 0 then some i else rest

abbrev pub strlen : ℕ → Chars → Option ℕ
strlen fuel str = strlen_from fuel str 0

-- The comparison of the bytes from `i` on: 1 at the first difference, 0 where there is none.
unfoldable pub differ_from : ℕ → (str1 str2 : Chars) → ℕ → ℕ
differ_from zero str1 str2 i = 0
differ_from (suc n) str1 str2 i =
    let rest = differ_from n str1 str2 (i + 1) in if str1 i == str2 i then rest else 1

abbrev pub memcmp : (str1 str2 : Chars) → ℕ → ℕ
memcmp str1 str2 n = differ_from n str1 str2 0

unfoldable pub strcmp : ℕ → (str1 str2 : Chars) → Option ℕ
strcmp fuel str1 str2 = elim (strlen fuel str1) [
  | none ↦ none
  | some n ↦ elim (strlen fuel str2) [
    | none ↦ none
    | some m ↦ some (if n == m then differ_from n str1 str2 0 else 1)
  ]
]

-- `for (j = 0; j < i; j++, i--)`: the ends are swapped until they meet, on fuel.
unfoldable pub swap_ends : ℕ → (j i : ℕ) → Chars → Chars
swap_ends zero j i s = s
swap_ends (suc fuel) j i s =
    let swapped = update (update s j (s i)) i (s j) in
    let rest = swap_ends fuel (j + 1) (i - 1) swapped in if ltb j i then rest else s

-- `while (number > 0)` of `dec2str`, on fuel: the digits from the lowest on, with their count.
unfoldable pub dec_digits : ℕ → (number i : ℕ) → Chars → ℕ × Chars
dec_digits zero number i s = (i, s)
dec_digits (suc fuel) number i s =
    let rest = dec_digits fuel (number / 10) (i + 1) (update s i (number % 10 + 48)) in
    if number == 0 then (i, s) else rest

-- 20 rounds are enough for 64 bits.
unfoldable pub dec2str : ℕ → Chars → Chars
dec2str number s =
    let written : ℕ × Chars =
      if number == 0 then (1, update s 0 48) else dec_digits 20 number 0 s in
    let i = written.0 in swap_ends i 0 (i - 1) (update written.1 i 0)

-- `"0123456789ABCDEF"`
abbrev pub hex_char : ℕ → ℕ
hex_char nibble = if ltb nibble 10 then nibble + 48 else nibble + 55

unfoldable pub hex_digits : ℕ → (hex_num i : ℕ) → Chars → ℕ × Chars
hex_digits zero hex_num i s = (i, s)
hex_digits (suc fuel) hex_num i s =
    let rest =
      hex_digits fuel (hex_num / 2 ^ 4) (i + 1)
        (update s i (hex_char (bit_and (u8 hex_num) 0xF))) in
    if hex_num == 0 then (i, s) else rest

-- 16 rounds are enough for 64 bits. A single digit gets a zero in front, and `0x` stands before all.
unfoldable pub hex2str : ℕ → Chars → Chars
hex2str hex_num s =
    let start : ℕ × Chars = if hex_num == 0 then (1, update (update s 0 48) 1 0) else (0, s) in
    let written = hex_digits 16 hex_num start.0 start.1 in
    let padded : ℕ × Chars =
      if ltb hex_num 0x10 then (written.0 + 1, update written.1 written.0 48) else written in
    let i = padded.0 in
    swap_ends (i + 2) 0 (i + 1) (update (update (update padded.1 i 120) (i + 1) 48) (i + 2) 0)
