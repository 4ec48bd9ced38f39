-- ===== src/Sched/Queue/Chain.antt =====
-- The list of elements that a tail queue stands for.
use qnixx.Common.{
  ℕ, ◌≡◌, ◌≢◌, refl, Bool, true, false, ◌||◌, List, [], ◌∷◌, ◌++◌, arith, ◌==◌, update,
}
use qnixx.Sched.Queue.{Slot, head_first, next_of, Tailq}

abbrev pub has : ℕ → List ℕ → Bool
has a [] = false
has a (x ∷ xs) = (x == a) || has a xs

-- From `p` the `next` pointers lead through the distinct elements `xs` to NULL.
abbrev pub Chain : (ℕ → ℕ) → ℕ → List ℕ → Type 0
Chain next p [] = p ≡ 0
Chain next p (x ∷ xs) = (p ≡ x) × (x ≢ 0) × (has x xs ≡ false) × Chain next (next x) xs

-- The last element of `x ∷ xs`.
abbrev pub last_of : ℕ → List ℕ → ℕ
last_of x [] = x
last_of x (y ∷ ys) = last_of y ys

-- The slot that holds the NULL at the end of the chain.
abbrev pub end_slot : List ℕ → Slot
end_slot [] = head_first
end_slot (x ∷ xs) = next_of (last_of x xs)

-- The `prev` of each element is the slot that leads to it.
abbrev pub BackLinks : (ℕ → Slot) → Slot → List ℕ → Type 0
BackLinks prev s [] = Unit
BackLinks prev s (x ∷ xs) = (prev x ≡ s) × BackLinks prev (next_of x) xs

pub record IsQueue (q : Tailq) (xs : List ℕ) : Type 0 where
  pub chain : Chain q.next q.first xs
  pub ends : q.last ≡ end_slot xs
  pub back : BackLinks q.prev head_first xs

-- A write at an address off the chain keeps the chain.
pub Chain-update :
    (next : ℕ → ℕ) (e v p : ℕ) (xs : List ℕ)
    → has e xs ≡ false
    → Chain next p xs
    → Chain (update next e v) p xs
Chain-update next e v p [] out c = c
Chain-update next e v p (x ∷ xs) out c =
    let same : update next e v x ≡ next x = ground arith in
    (c.0, c.1, c.2, rw same (Chain-update next e v (next x) xs (ground arith) c.3))

pub BackLinks-update :
    (prev : ℕ → Slot) (e : ℕ) (v s : Slot) (xs : List ℕ)
    → has e xs ≡ false
    → BackLinks prev s xs
    → BackLinks (update prev e v) s xs
BackLinks-update prev e v s [] out b = tt
BackLinks-update prev e v s (x ∷ xs) out b =
    (ground arith, BackLinks-update prev e v (next_of x) xs (ground arith) b.1)

pub has-append : (a : ℕ) (xs ys : List ℕ) → has a (xs ++ ys) ≡ (has a xs || has a ys)
has-append a [] ys = refl
has-append a (x ∷ xs) ys = ground (arith, has-append a xs ys)

pub has-last_of : (x : ℕ) (xs : List ℕ) → has (last_of x xs) (x ∷ xs) ≡ true
has-last_of x [] = ground arith
has-last_of x (y ∷ ys) = ground (arith, has-last_of y ys)

-- The NULL at the end of the chain is overwritten by an element whose own `next` is NULL.
pub Chain-append :
    (next : ℕ → ℕ) (e x : ℕ) (xs : List ℕ)
    → e ≢ 0
    → next e ≡ 0
    → has e (x ∷ xs) ≡ false
    → Chain next x (x ∷ xs)
    → Chain (update next (last_of x xs) e) x (x ∷ (xs ++ (e ∷ [])))
Chain-append next e x [] ne null out c =
    (refl, c.1, ground arith, (ground arith, ne, refl, ground arith))
Chain-append next e x (y ∷ ys) ne null out c =
    let at : next x ≡ y = c.3.0 in
    let rest = Chain-append next e y ys ne null (ground arith) (refl, c.3.1, c.3.2, c.3.3) in
    let apart : (x == last_of y ys) ≡ false = ground (arith, has-last_of y ys) in
    (refl, c.1, ground (arith, has-append x ys (e ∷ [])), rw (apart, at) rest)
