-- ===== src/Tests/OfSemaphore.antt =====
-- P, V and the end of a semaphore on the systems of the fixtures.
use ecp_c.Base.{
  ℕ, ◌≤◌, ◌≡◌, ◌>>=◌, ◌==◌, ◌&&◌, if◌then◌else◌, inl, inr, refl, List, [], ◌∷◌, some, none, arith,
}
use ecp_c.System.{Thread, System, active, sem_blocked, put_thread}
use ecp_c.Scheduler.{thread_yield}
use ecp_c.Scheduler.Chain.{Chain}
use ecp_c.Scheduler.Elect.{In, Distinct, priority_of}
use ecp_c.Semaphore.{thread_semaphore_free, thread_semaphore_p, thread_semaphore_v}
use ecp_c.Semaphore.Waiters.{IsWaiter}
use ecp_c.Semaphore.Laws.{v-wakes_best, p-v, free-releases}
use ecp_c.Tests.Fixtures.{board, system, waiting, first, second}

abbrev queue : List ℕ
queue = 10 ∷ 20 ∷ []

pub system-Chain : Chain system 10 queue
system-Chain = (
  refl,
  omega arith,
  omega arith,
  (first, refl, (refl, omega arith, omega arith, (second, refl, refl))),
)

waiting-Chain : Chain waiting 10 queue
waiting-Chain = (
  refl,
  omega arith,
  omega arith,
  (first, refl, (refl, omega arith, omega arith, (waiter, refl, refl))),
)
  where
    waiter : Thread
    waiter = record second { blocked_semaphore = 77; status = 0x04 }

nobody : (x : ℕ) → In x queue → ¬ IsWaiter system 77 x
nobody x (inl e) (t, at_x, w) = ground arith
nobody x (inr (inl e)) (t, at_x, w) = ground arith
nobody x (inr (inr i)) w = i

pub queue-Distinct : Distinct queue
queue-Distinct = (ground arith, (ground arith, tt))

v-wakes_best_example :
    (e : ℕ) × (t : Thread) × In e queue
    × (waiting.threads e ≡ some t)
    × (t.blocked_semaphore ≡ 77)
    × ((y : ℕ) → In y queue → IsWaiter waiting 77 y → priority_of (waiting.threads y) ≤ t.priority)
    × (thread_semaphore_v board 3 77 waiting
        ≡ thread_yield board 3
            (put_thread waiting e (record t { status = active; blocked_semaphore = 0 })))
v-wakes_best_example =
    v-wakes_best board 3 77 waiting queue 20 (omega arith) waiting-Chain (omega arith)
      (inr (inl refl)) (record second { blocked_semaphore = 77; status = 0x04 }, refl, refl)

p-v_example : (thread_semaphore_v board 3 77 system >>= thread_semaphore_p board 3 77) ≡ some system
p-v_example =
    p-v board 3 77 system queue (omega arith) system-Chain (omega arith) nobody refl (omega arith)

free-releases_example :
    (s' : System) × (thread_semaphore_free 3 77 waiting ≡ some s')
    × ((x : ℕ) (t : Thread)
        → In x queue
        → waiting.threads x ≡ some t
        → s'.threads x
          ≡ some (
              if t.status == sem_blocked && t.blocked_semaphore == 77
              then record t { status = active; blocked_semaphore = 0 }
              else t))
    × ((q : ℕ) → ¬ In q queue → s'.threads q ≡ waiting.threads q)
    × (s'.semaphores 77 ≡ none)
free-releases_example =
    free-releases 3 77 waiting queue (omega arith) waiting-Chain queue-Distinct (omega arith)
