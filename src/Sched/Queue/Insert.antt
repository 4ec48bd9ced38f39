-- ===== src/Sched/Queue/Insert.antt =====
-- The tail queue operations on the list that the queue stands for.
use qnixx.Common.{
  ℕ, ◌≡◌, ◌≢◌, refl, sym, true, false, ◌∙◌, ap, List, [], ◌∷◌, ◌++◌, arith, ◌==◌, update,
  update_self,
}
use qnixx.Sched.Queue.{Slot, head_first, next_of, Tailq, init, insert_head, insert_tail}
use qnixx.Sched.Queue.Chain.{
  has, last_of, BackLinks, IsQueue, Chain-update, BackLinks-update, Chain-append,
}

-- A queue that has just been initialised is empty.
pub init-IsQueue : (q : Tailq) → IsQueue (init q) []
unfolding init
init-IsQueue q = record { chain = refl; ends = refl; back = tt }

BackLinks-append :
    (prev : ℕ → Slot) (s : Slot) (e x : ℕ) (xs : List ℕ)
    → BackLinks prev s (x ∷ xs)
    → prev e ≡ next_of (last_of x xs)
    → BackLinks prev s (x ∷ (xs ++ (e ∷ [])))
BackLinks-append prev s e x [] b at = (b.0, (at, tt))
BackLinks-append prev s e x (y ∷ ys) b at = (b.0, BackLinks-append prev (next_of x) e y ys b.1 at)

last_of-append : (e x : ℕ) (xs : List ℕ) → last_of x (xs ++ (e ∷ [])) ≡ e
last_of-append e x [] = refl
last_of-append e x (y ∷ ys) = last_of-append e y ys

-- On a queue that stands for the elements xs, TAILQ_INSERT_TAIL of an element that is not NULL
-- and not in xs gives a queue that stands for xs with the element at the end: forward links, back
-- links and the tail slot.
pub insert_tail-append :
    (q : Tailq) (elm : ℕ) (xs : List ℕ)
    → elm ≢ 0
    → has elm xs ≡ false
    → IsQueue q xs
    → IsQueue (insert_tail q elm) (xs ++ (elm ∷ []))
unfolding insert_tail
insert_tail-append q elm [] ne out is =
    rw is.ends
      (record { chain = (refl, ne, refl, ground arith); ends = refl; back = (ground arith, tt) })
insert_tail-append q elm (x ∷ xs) ne out is =
    let slot = next_of (last_of x xs) in
    let kept = Chain-update q.next elm 0 q.first (x ∷ xs) out is.chain in
    let longer =
      Chain-append (update q.next elm 0) elm x xs ne (ground arith) out
        (refl, kept.1, kept.2, kept.3) in
    let linked = BackLinks-update q.prev elm slot head_first (x ∷ xs) out is.back in
    rw is.ends (record {
      chain = (is.chain.0, longer.1, longer.2, longer.3);
      ends = ap next_of (sym (last_of-append elm x xs));
      back = BackLinks-append (update q.prev elm slot) head_first elm x xs linked (ground arith);
    })

-- On a queue that stands for the elements xs, TAILQ_INSERT_HEAD of an element that is not NULL
-- and not in xs gives a queue that stands for xs with the element in front: forward links, back
-- links and the tail slot.
pub insert_head-cons :
    (q : Tailq) (elm : ℕ) (xs : List ℕ)
    → elm ≢ 0
    → has elm xs ≡ false
    → IsQueue q xs
    → IsQueue (insert_head q elm) (elm ∷ xs)
unfolding insert_head
insert_head-cons q elm [] ne out is =
    let empty : (q.first == 0) ≡ true = ground (arith, is.chain) in
    rw empty (record {
      chain = (refl, ne, refl, ground (arith, is.chain));
      ends = refl;
      back = (ground arith, tt);
    })
insert_head-cons q elm (x ∷ xs) ne out is =
    let full : (q.first == 0) ≡ false = ground (arith, is.chain) in
    let kept = Chain-update q.next elm q.first q.first (x ∷ xs) out is.chain in
    let deeper =
      BackLinks-update q.prev q.first (next_of elm) (next_of x) xs (rw is.chain.0 is.chain.2)
        is.back.1 in
    let back =
      BackLinks-update (update q.prev q.first (next_of elm)) elm head_first (next_of elm) (x ∷ xs)
        out (ground (arith, is.chain.0), deeper) in
    rw full (record {
      chain =
          (refl, ne, out, (update_self q.next elm q.first ∙ is.chain.0, kept.1, kept.2, kept.3));
      ends = is.ends;
      back = (ground arith, back);
    })
