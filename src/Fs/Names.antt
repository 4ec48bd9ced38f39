-- ===== src/Fs/Names.antt =====
-- Byte strings as lists: a string in memory, its length, and its parts between slashes.
use mathlib.Core.List.{append-nil, append_assoc}
use qnixx.Common.{
  ne→==, ℕ, zero, suc, ◌+◌, ◌≤◌, ◌<◌, ◌≡◌, ◌≢◌, refl, sym, ap, ◌∙◌, true, false, some, List, [],
  ◌∷◌, ◌++◌, length, All, length-append, Bool-cases, inl, inr, ltb→lt, update_self, update_ne, ◌==◌,
  ltb, if◌then◌else◌, update, arith,
}
use qnixx.Libkern.String.{Chars, strlen}
use qnixx.Libkern.String.Compare.{strlen_from_lem}
use qnixx.Fs.{key_of, slash}

-- The string of a list, with zero bytes behind it.
abbrev pub text : List ℕ → Chars
text [] i = 0
text (c ∷ cs) zero = c
text (c ∷ cs) (suc i) = text cs i

abbrev pub Nonzero : ℕ → Type 0
Nonzero c = c ≢ 0

-- A list at the end of another: its bytes below the end, and the one that is added.
text-append_below : (xs : List ℕ) (c i : ℕ) → i < length xs → text (xs ++ c ∷ []) i ≡ text xs i
text-append_below [] c i h = absurd (omega (arith, h))
text-append_below (x ∷ xs) c zero h = refl
text-append_below (x ∷ xs) c (suc i) h = text-append_below xs c i (omega (arith, h))

text-append_at : (xs : List ℕ) (c : ℕ) → text (xs ++ c ∷ []) (length xs) ≡ c
text-append_at [] c = refl
text-append_at (x ∷ xs) c = text-append_at xs c

pub text-ne_zero : (xs : List ℕ) (i : ℕ) → All Nonzero xs → i < length xs → text xs i ≢ 0
text-ne_zero [] i all h = absurd (omega (arith, h))
text-ne_zero (x ∷ xs) zero (first, rest) h = first
text-ne_zero (x ∷ xs) (suc i) (first, rest) h = text-ne_zero xs i rest (omega (arith, h))

All-append_one : (xs : List ℕ) (c : ℕ) → All Nonzero xs → c ≢ 0 → All Nonzero (xs ++ c ∷ [])
All-append_one [] c all h = (h, tt)
All-append_one (x ∷ xs) c (first, rest) h = (first, All-append_one xs c rest h)

-- The first bytes of `fname` are the name `w`.
pub record Holds (fname : Chars) (w : List ℕ) : Type 0 where
  pub bytes : (i : ℕ) → i < length w → fname i ≡ text w i
  pub nonzero : All Nonzero w

pub Holds-empty : (fname : Chars) → Holds fname []
Holds-empty fname = record { bytes = λ i h. absurd (omega (arith, h)); nonzero = tt }

pub Holds-update :
    (fname : Chars) (w : List ℕ) (c : ℕ)
    → Holds fname w
    → c ≢ 0
    → Holds (update fname (length w) c) (w ++ c ∷ [])
Holds-update fname w c h ne = record { bytes = bytes; nonzero = All-append_one w c h.nonzero ne }
  where
    bytes : (i : ℕ) → i < length (w ++ c ∷ []) → update fname (length w) c i ≡ text (w ++ c ∷ []) i
    bytes i lt = elim (Bool-cases (ltb i (length w))) [
      | inl below ↦
          let under = ltb→lt i (length w) below in
          update_ne fname c (omega (arith, under))
          ∙ h.bytes i under
          ∙ sym (text-append_below w c i under)
      | inr above ↦
          let at : i ≡ length w = ground (arith, length-append w (c ∷ [])) in
          rw at (update_self fname (length w) c ∙ sym (text-append_at w c))
    ]

pub key_of-text :
    (w : List ℕ) (str : Chars)
    → ((i : ℕ) → i < length w → str i ≡ text w i)
    → key_of (length w) str ≡ w
key_of-text [] str same = refl
key_of-text (x ∷ w) str same =
    let first : str 0 ≡ x = same 0 (omega arith) in
    let rest =
      key_of-text w (λ i. str (i + 1))
        (λ i h. ap str (omega arith) ∙ same (suc i) (omega (arith, h))) in
    cc

-- The name between the first bytes and the zero byte that closes it.
module _ (fname : Chars) (w : List ℕ) (h : Holds fname w) where
  abbrev closed : Chars
  closed = update fname (length w) 0

  closed_below : (i : ℕ) → i < length w → closed i ≡ text w i
  closed_below i lt = update_ne fname 0 (omega (arith, lt)) ∙ h.bytes i lt

  pub strlen-Holds : (fuel : ℕ) → length w < fuel → strlen fuel closed ≡ some (length w)
  strlen-Holds fuel enough =
      strlen_from_lem fuel closed 0 (length w) (omega arith) (omega (arith, enough))
        (update_self fname (length w) 0)
        (λ k low lt zero_byte. text-ne_zero w k h.nonzero lt (sym (closed_below k lt) ∙ zero_byte))

  pub key_of-Holds : key_of (length w) closed ≡ w
  key_of-Holds = key_of-text w closed closed_below

-- The string of a list of nonzero bytes.
pub strlen-text :
    (w : List ℕ) (fuel : ℕ)
    → All Nonzero w
    → length w < fuel
    → strlen fuel (text w) ≡ some (length w)
strlen-text w fuel nonzero enough =
    strlen_from_lem fuel (text w) 0 (length w) (omega arith) (omega (arith, enough)) (text_end w)
      (λ k low lt zero_byte. text-ne_zero w k nonzero lt zero_byte)
  where
    text_end : (xs : List ℕ) → text xs (length xs) ≡ 0
    text_end [] = refl
    text_end (x ∷ xs) = text_end xs

-- The parts of a path, `w` being what has been read of the first.
unfoldable pub split_on : (w path : List ℕ) → List (List ℕ)
split_on w [] = w ∷ []
split_on w (c ∷ cs) =
    let others = w ∷ split_on [] cs in
    let longer = split_on (w ++ c ∷ []) cs in if c == slash then others else longer

pub split_on-slash :
    (w cs : List ℕ) (c : ℕ) → (c == slash) ≡ true → split_on w (c ∷ cs) ≡ w ∷ split_on [] cs
unfolding split_on
split_on-slash w cs c h = rw h refl

pub split_on-char :
    (w cs : List ℕ) (c : ℕ) → (c == slash) ≡ false → split_on w (c ∷ cs) ≡ split_on (w ++ c ∷ []) cs
unfolding split_on
split_on-char w cs c h = rw h refl

-- The first part is at least as long as what has been read of it.
pub split_on_first :
    (w path : List ℕ)
    → (first : List ℕ) × (rest : List (List ℕ)) × (split_on w path ≡ first ∷ rest)
      × (length w ≤ length first)
unfolding split_on
split_on_first w [] = (w, [], refl, omega arith)
split_on_first w (c ∷ cs) = elim (Bool-cases (c == slash)) [
  | inl ends ↦ (w, split_on [] cs, split_on-slash w cs c ends, omega arith)
  | inr goes_on ↦
      let (first, rest, eq, longer) = split_on_first (w ++ c ∷ []) cs in
      (
        first,
        rest,
        split_on-char w cs c goes_on ∙ eq,
        omega (arith, longer, length-append w (c ∷ [])),
      )
]

abbrev pub NotSlash : ℕ → Type 0
NotSlash c = c ≢ slash

-- A name without a slash is one part.
pub split_on-name : (w name : List ℕ) → All NotSlash name → split_on w name ≡ (w ++ name) ∷ []
unfolding split_on
split_on-name w [] plain = rw append-nil refl
split_on-name w (c ∷ cs) (other, plain) =
    split_on-char w cs c (ne→== c slash other)
    ∙ split_on-name (w ++ c ∷ []) cs plain
    ∙ ap (λ (p : List ℕ). p ∷ []) (append_assoc w (c ∷ []) cs)
