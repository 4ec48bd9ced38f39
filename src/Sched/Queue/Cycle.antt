-- ===== src/Sched/Queue/Cycle.antt =====
-- Going round a queue, as `next_thread` and `next_process` do.
use qnixx.Common.{
  ℕ, zero, suc, ◌+◌, ◌%◌, ◌<◌, ◌≡◌, ◌≢◌, ◌⊎◌, inl, inr, refl, sym, ◌∙◌, ap, List, [], ◌∷◌, arith,
  some, get_elem?, length, none≢some, some_eq,
}
use native.Mathlib.Nat.{mod-eq_of_lt, mod_self, mod-add-mod}
use qnixx.Sched.Queue.{Tailq, next_or_first}
use qnixx.Sched.Queue.Chain.{Chain, IsQueue}

-- What follows element `e` at index `i`: NULL at the end, and the next element before it.
abbrev Follows : (ℕ → ℕ) → List ℕ → ℕ → ℕ → Type 0
Follows next xs i e =
    (suc i ≡ length xs) × (next e ≡ 0)
    ⊎ (suc i < length xs) × (next e ≢ 0) × (get_elem? xs (suc i) ≡ some (next e))

Chain-Follows :
    (next : ℕ → ℕ) (p : ℕ) (xs : List ℕ) (i : ℕ) (e : ℕ)
    → Chain next p xs
    → get_elem? xs i ≡ some e
    → Follows next xs i e
Chain-Follows next p [] i e c at = absurd (none≢some at)
Chain-Follows next p (x ∷ []) zero e c at = inl (refl, ground (arith, c.3))
Chain-Follows next p (x ∷ []) (suc i) e c at = absurd (none≢some at)
Chain-Follows next p (x ∷ y ∷ ys) zero e c at =
    inr (omega arith, ground (arith, c.3.0, c.3.1), ground (arith, c.3.0))
Chain-Follows next p (x ∷ y ∷ ys) (suc i) e c at =
    elim (Chain-Follows next (next x) (y ∷ ys) i e c.3 at) [
      | inl last ↦ inl (omega arith, last.1)
      | inr more ↦ inr (omega arith, more.1, more.2)
    ]

lt_of_get : (xs : List ℕ) (i : ℕ) {e : ℕ} → get_elem? xs i ≡ some e → i < length xs
lt_of_get [] i at = absurd (none≢some at)
lt_of_get (x ∷ xs) zero at = omega arith
lt_of_get (x ∷ xs) (suc i) at = omega (arith, lt_of_get xs i at)

first-Chain :
    (next : ℕ → ℕ) (p : ℕ) (xs : List ℕ) → Chain next p xs → 0 < length xs → get_elem? xs 0 ≡ some p
first-Chain next p [] c pos = absurd (omega arith)
first-Chain next p (x ∷ xs) c pos = ap some (sym c.0)

-- From the element at an index, the next one, or the first after the last.
pub next_or_first-cycle :
    (q : Tailq) (xs : List ℕ) (i e : ℕ)
    → IsQueue q xs
    → get_elem? xs i ≡ some e
    → get_elem? xs ((i + 1) % length xs) ≡ some (next_or_first q e)
unfolding next_or_first
next_or_first-cycle q xs i e is at = elim (Chain-Follows q.next q.first xs i e is.chain at) [
  | inl last ↦
      let wraps : (i + 1) % length xs ≡ 0 =
        ap (λ (t : ℕ). t % length xs) (omega (arith, last.0)) ∙ mod_self (length xs) in
      let back : next_or_first q e ≡ q.first = ground (arith, last.1) in
      rw (wraps, back) (first-Chain q.next q.first xs is.chain (omega (arith, lt_of_get xs i at)))
  | inr more ↦
      let stays : (i + 1) % length xs ≡ suc i =
        mod-eq_of_lt (omega (arith, more.0)) ∙ omega arith in
      let on : next_or_first q e ≡ q.next e = ground (arith, more.1) in rw (stays, on) more.2
]

-- `k` steps.
pub go_round : ℕ → Tailq → ℕ → ℕ
go_round zero q e = e
go_round (suc k) q e = go_round k q (next_or_first q e)

-- Starting from the element at index i of a queue, k moves to the next element, or to the first
-- where there is none, lead to the element at index i + k modulo the length.
pub go_round-get_elem? :
    (q : Tailq) (xs : List ℕ) (k i e : ℕ)
    → IsQueue q xs
    → get_elem? xs i ≡ some e
    → get_elem? xs ((i + k) % length xs) ≡ some (go_round k q e)
unfolding go_round
go_round-get_elem? q xs zero i e is at =
    let same : (i + 0) % length xs ≡ i =
      ap (λ (t : ℕ). t % length xs) (omega arith) ∙ mod-eq_of_lt (lt_of_get xs i at) in
    rw same at
go_round-get_elem? q xs (suc k) i e is at =
    let moved : ((i + 1) % length xs + k) % length xs ≡ (i + suc k) % length xs =
      mod-add-mod (i + 1) (length xs) k ∙ ap (λ (t : ℕ). t % length xs) (omega arith) in
    rw (← moved) (
      go_round-get_elem? q xs k ((i + 1) % length xs) (next_or_first q e) is
        (next_or_first-cycle q xs i e is at))

-- As many moves as the queue is long lead back.
pub go_round-length :
    (q : Tailq) (xs : List ℕ) (i e : ℕ)
    → IsQueue q xs
    → get_elem? xs i ≡ some e
    → go_round (length xs) q e ≡ e
go_round-length q xs i e is at =
    some_eq (sym (go_round-get_elem? q xs (length xs) i e is at) ∙ rw home at)
  where
    home : (i + length xs) % length xs ≡ i
    home = grind (arith, lt_of_get xs i at)

-- No element of a queue is NULL.
pub get-ne-zero :
    (next : ℕ → ℕ) (p : ℕ) (xs : List ℕ) (i : ℕ) {e : ℕ}
    → Chain next p xs
    → get_elem? xs i ≡ some e
    → e ≢ 0
get-ne-zero next p [] i c at = absurd (none≢some at)
get-ne-zero next p (x ∷ xs) zero c at = ground (arith, c.1)
get-ne-zero next p (x ∷ xs) (suc i) c at = get-ne-zero next (next x) xs i c.3 at
