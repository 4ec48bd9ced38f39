-- ===== src/Sched/Queue.antt =====
-- sys/include/sys/queue.h: the tail queue. An element is a nonzero address, and 0 is NULL. A pointer
-- to a pointer is the slot that it leads to: the head's `first`, or the `next` of an element.
pub mod Chain
pub mod Insert
pub mod Cycle
use qnixx.Common.{ℕ, Bool, ◌==◌, if◌then◌else◌, not, update}

pub data Slot : Type 0 where
  head_first : Slot
  next_of : ℕ → Slot

-- `TAILQ_HEAD` with the `TAILQ_ENTRY` of every element.
pub record Tailq : Type 0 where
  pub first : ℕ
  pub last : Slot
  pub next : ℕ → ℕ
  pub prev : ℕ → Slot

-- `*slot = value`
abbrev pub store : Slot → ℕ → Tailq → Tailq
store head_first value q = record q { first = value }
store (next_of e) value q = record q { next = update q.next e value }

-- `TAILQ_INIT`
unfoldable pub init : Tailq → Tailq
init q = record q { first = 0; last = head_first }

-- `TAILQ_INSERT_HEAD`
unfoldable pub insert_head : Tailq → ℕ → Tailq
insert_head q elm =
    let linked : Tailq = record q { next = update q.next elm q.first } in
    let placed : Tailq =
      if not (q.first == 0)
      then record linked { prev = update q.prev q.first (next_of elm) }
      else record linked { last = next_of elm } in
    record placed { first = elm; prev = update placed.prev elm head_first }

-- `TAILQ_INSERT_TAIL`
unfoldable pub insert_tail : Tailq → ℕ → Tailq
insert_tail q elm =
    let linked : Tailq = record q { next = update q.next elm 0; prev = update q.prev elm q.last } in
    let stored = store q.last elm linked in record stored { last = next_of elm }

-- `TAILQ_NEXT`, and `TAILQ_FIRST` where there is none: `next_thread` and `next_process`.
unfoldable pub next_or_first : Tailq → ℕ → ℕ
next_or_first q e = if q.next e == 0 then q.first else q.next e
