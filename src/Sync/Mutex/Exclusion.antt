-- ===== src/Sync/Mutex/Exclusion.antt =====
-- Who is inside, in every state that can be reached.
use qnixx.Common.{
  ℕ, zero, suc, ◌≡◌, ◌≢◌, ◌≤◌, refl, sym, ap, ◌∙◌, none, some, ◌==◌, update, update_self, update_ne,
  arith, ◌⊎◌, inl, inr, Bool-cases, ==_iff, ne→==,
}
use qnixx.Sync.Mutex.{
  mutex_acquire, Pc, outside, acquiring, inside, Move, call, win, spin, release, System, Step, pick,
  Reach, start, later,
}

-- The byte says whether a thread is inside, and no two are.
pub record Inv (lock : ℕ) (pc : ℕ → Pc) : Type 0 where
  pub bit : lock ≤ 1
  pub nobody : (i : ℕ) → lock ≡ 0 → pc i ≢ inside
  pub one : (i j : ℕ) → pc i ≡ inside → pc j ≡ inside → i ≡ j
  pub holder : lock ≢ 0 → (i : ℕ) × (pc i ≡ inside)

outside≢inside : outside ≢ inside
outside≢inside e = cc

acquiring≢inside : acquiring ≢ inside
acquiring≢inside e = cc

module _ (pc : ℕ → Pc) (i : ℕ) where
  -- A thread that is inside after a move to elsewhere is another one, and was inside before.
  was_inside : (p : Pc) (j : ℕ) → p ≢ inside → update pc i p j ≡ inside → (j ≢ i) × (pc j ≡ inside)
  was_inside p j away now = elim (Bool-cases (j == i)) [
    | inl same ↦ absurd (away (rw same at now))
    | inr other ↦ (ground arith, rw other at now)
  ]

  -- With nobody inside before, only the one that enters is.
  just_entered : (j : ℕ) → ((k : ℕ) → pc k ≢ inside) → update pc i inside j ≡ inside → j ≡ i
  just_entered j nobody now = elim (Bool-cases (j == i)) [
    | inl same ↦ (==_iff j i).0 same
    | inr other ↦ absurd (nobody j (rw other at now))
  ]

  stays_inside : (p : Pc) (j : ℕ) → pc i ≢ inside → pc j ≡ inside → update pc i p j ≡ inside
  stays_inside p j away here = update_ne pc p (λ e. away (ap pc (sym e) ∙ here)) ∙ here

module _ {lock : ℕ} {pc : ℕ → Pc} (inv : Inv lock pc) (i : ℕ) where
  -- A move of a thread that neither enters nor leaves keeps who is inside.
  bystander :
      (lock' : ℕ) (p : Pc)
      → pc i ≢ inside
      → p ≢ inside
      → lock' ≤ 1
      → (lock' ≡ 0 → lock ≡ 0)
      → (lock' ≢ 0 → lock ≢ 0)
      → Inv lock' (update pc i p)
  bystander lock' p away away' bit zero_before set_before = record {
    bit = bit;
    nobody = λ j e now. inv.nobody j (zero_before e) (was_inside pc i p j away' now).1;
    one = λ j k now also.
        inv.one j k (was_inside pc i p j away' now).1 (was_inside pc i p k away' also).1;
    holder = λ ne. let (h, at) = inv.holder (set_before ne) in (h, stays_inside pc i p h away at);
  }

  enter : lock ≡ 0 → Inv 1 (update pc i inside)
  enter free =
      let only = λ (j : ℕ). just_entered pc i j (λ k. inv.nobody k free) in
      record {
        bit = omega arith;
        nobody = λ j e now. omega (arith, e);
        one = λ j k now also. only j now ∙ sym (only k also);
        holder = λ ne. (i, update_self pc i inside);
      }

  leave : pc i ≡ inside → Inv 0 (update pc i outside)
  leave here = record {
    bit = omega arith;
    nobody = λ j e now.
        let (other, before) = was_inside pc i outside j outside≢inside now in
        other (inv.one j i before here);
    one = λ j k now also.
        let (_, before) = was_inside pc i outside j outside≢inside now in
        let (_, before') = was_inside pc i outside k outside≢inside also in
        inv.one j k before before';
    holder = λ ne. absurd (ne refl);
  }

  Move-Inv : {lock' : ℕ} {p p' : Pc} → Move lock p lock' p' → pc i ≡ p → Inv lock' (update pc i p')
  Move-Inv call here =
      bystander lock acquiring (λ e. cc) acquiring≢inside inv.bit (λ e. e) (λ ne. ne)
  Move-Inv (win free) here = enter (ground arith)
  Move-Inv (spin taken) here =
      bystander 1 acquiring (λ e. cc) acquiring≢inside (omega arith) (λ e. omega (arith, e))
        (λ ne. ground arith)
  Move-Inv release here = leave here

init-Inv : Inv 0 (λ _. outside)
init-Inv = record {
  bit = omega arith;
  nobody = λ i e now. outside≢inside now;
  one = λ i j now also. absurd (outside≢inside now);
  holder = λ ne. absurd (ne refl);
}

pub Reach-Inv : {s : System} → Reach s → Inv s.lock s.pc
Reach-Inv start = init-Inv
Reach-Inv (later r (pick i move)) = Move-Inv (Reach-Inv r) i move refl

-- In every state that any number of threads can reach from a mutex that is 0, each calling
-- mutex_acquire and mutex_release in turn and their atomic steps interleaved in any order, no two
-- threads are between the two calls.
pub mutual_exclusion :
    {s : System} → Reach s → (i j : ℕ) → s.pc i ≡ inside → s.pc j ≡ inside → i ≡ j
mutual_exclusion r = (Reach-Inv r).one

-- In every such state in which a thread is in the loop of mutex_acquire, some thread holds the
-- lock, or a step is possible after which the waiting thread holds it.
pub no_deadlock :
    {s : System} (i : ℕ)
    → Reach s
    → s.pc i ≡ acquiring
    → ((j : ℕ) × (s.pc j ≡ inside)) ⊎ ((t : System) × Step s t × (t.pc i ≡ inside))
no_deadlock {s} i r waits = elim (Bool-cases (s.lock == 0)) [
  | inl free ↦ inr (
    record { lock = 1; pc = update s.pc i inside },
    pick i (rw waits (win (rw free refl))),
    update_self s.pc i inside,
  )
  | inr taken ↦ inl ((Reach-Inv r).holder (ground arith))
]

-- A free lock is taken at once, and a thread waits for a held one as long as nobody else runs.
pub mutex_acquire-free : (fuel : ℕ) → mutex_acquire (suc fuel) 0 ≡ some 1
unfolding mutex_acquire
mutex_acquire-free fuel = refl

pub mutex_acquire-held : (fuel lock : ℕ) → lock ≢ 0 → mutex_acquire fuel lock ≡ none
unfolding mutex_acquire
mutex_acquire-held zero lock held = refl
mutex_acquire-held (suc fuel) lock held =
    rw (ne→== lock 0 held) (mutex_acquire-held fuel 1 (omega arith))
