-- ===== src/Sync/Mutex/Tests.antt =====
-- Two threads: the first holds the lock, the second waits for it.
use qnixx.Common.{ℕ, ◌≡◌, refl, ◌⊎◌}
use qnixx.Sync.Mutex.{inside, call, win, System, Step, pick, Reach, start, later}
use qnixx.Sync.Mutex.Exclusion.{mutual_exclusion, no_deadlock}

abbrev contended : (s : System) × Reach s
contended = (_, later (later (later start (pick 0 call)) (pick 1 call)) (pick 0 (win refl)))

mutual_exclusion_example : ◌≡◌ {A = ℕ} 0 0
mutual_exclusion_example = mutual_exclusion contended.1 0 0 refl refl

no_deadlock_example :
    ((j : ℕ) × (contended.0.pc j ≡ inside))
    ⊎ ((t : System) × Step contended.0 t × (t.pc 1 ≡ inside))
no_deadlock_example = no_deadlock 1 contended.1 refl
