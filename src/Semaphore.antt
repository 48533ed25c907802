-- ===== src/Semaphore.antt =====
-- The semaphores of arduino/libraries/rtthreads/rtthreads.cpp. A semaphore's value is a 16-bit
-- `int`, as its bit pattern. The two loops over the run queue stop at `thread_main_inf`, and take
-- `fuel`.
pub mod Waiters
pub mod Laws
use ecp_c.Base.{
  ℕ, zero, suc, ◌+◌, ◌-◌, ◌&&◌, ◌∷◌, Option, some, none, ◌==◌, ltb, if◌then◌else◌, ◌>>=◌, sle16,
  u16,
}
use ecp_c.System.{Thread, System, Board, active, sem_blocked, put_thread, put_semaphore}
use ecp_c.Scheduler.{thread_yield}

-- `block` is what the allocator returns. The value is written with no test for NULL.
unfoldable pub thread_semaphore_create : Option ℕ → ℕ → System → Option (ℕ × System)
thread_semaphore_create block initialization s = do
  sem ← block
  some (sem, put_semaphore s sem initialization)

-- The better of the candidate and the thread `t` at `p`, if `t` waits for `sem`.
unfoldable pub prefer : System → ℕ → ℕ → Thread → ℕ → Option ℕ
prefer s sem p t candidate =
    if t.blocked_semaphore == sem
    then (if candidate == 0
        then some p
        else s.threads candidate >>= λ c. some (if ltb c.priority t.priority then p else candidate))
    else some candidate

-- "for all threads search max priority less", from the thread `p` on; 0 if none waits.
unfoldable pub find_waiter : ℕ → System → ℕ → ℕ → ℕ → Option ℕ
find_waiter zero s sem p candidate = none
find_waiter (suc n) s sem p candidate =
    let rest =
      (s.threads p >>= λ t.
      prefer s sem p t candidate >>= λ c. find_waiter n s sem t.runq_next c) in
    if p == s.thread_main_inf then some candidate else rest

abbrev pub released : ℕ → Thread → Thread
released sem t =
    if t.status == sem_blocked && t.blocked_semaphore == sem
    then record t { status = active; blocked_semaphore = 0 }
    else t

-- The loop of `thread_semaphore_free`.
unfoldable pub release_all : ℕ → System → ℕ → ℕ → Option System
release_all zero s sem p = none
release_all (suc n) s sem p =
    let rest =
      (s.threads p >>= λ t. release_all n (put_thread s p (released sem t)) sem t.runq_next) in
    if p == s.thread_main_inf then some s else rest

unfoldable pub thread_semaphore_free : ℕ → ℕ → System → Option System
thread_semaphore_free fuel sem s = if sem == 0 then some s else (do
  s' ← release_all fuel s sem s.thread_list
  some (record s' {
    semaphores = λ q. if sem == q then none else s'.semaphores q;
    freed = sem ∷ s'.freed;
  }))

module _ (b : Board) (fuel : ℕ) where
  unfoldable pub thread_semaphore_p : ℕ → System → Option System
  thread_semaphore_p sem s = if sem == 0 then some s else (do
    value ← s.semaphores sem
    if sle16 value 0
        then (s.threads s.current_thread >>= λ this. thread_yield b fuel (
            put_thread s s.current_thread
              (record this { blocked_semaphore = sem; status = sem_blocked })))
        else some (put_semaphore s sem (u16 (value + 0xffff))))

  unfoldable pub thread_semaphore_v : ℕ → System → Option System
  thread_semaphore_v sem s = if sem == 0 then some s else (do
    candidate ← find_waiter fuel s sem s.thread_list 0
    let woken =
        (s.threads candidate >>= λ t.
        thread_yield b fuel
          (put_thread s candidate (record t { status = active; blocked_semaphore = 0 })))
    let counted = (s.semaphores sem >>= λ value. some (put_semaphore s sem (u16 (value + 1))))
    if candidate == 0 then counted else woken)
