-- ===== src/Semaphore/Laws.antt =====
-- What P, V and the end of a semaphore do, on every branch.
use ecp_c.Base.{
  ℕ, ◌+◌, ◌^◌, ◌≤◌, ◌<◌, ◌≡◌, ◌≢◌, ◌⊎◌, inl, inr, refl, ap, ◌∙◌, List, ◌∷◌, some, none, arith,
  length, ◌==◌, ◌&&◌, if◌then◌else◌, ◌>>=◌, u16,
}
use mathlib.Core.Path.{fun_ext}
use ecp_c.System.{Thread, System, Board, put_thread, put_semaphore, update, active, sem_blocked}
use ecp_c.Scheduler.{thread_yield}
use ecp_c.Scheduler.Chain.{Chain}
use ecp_c.Scheduler.Elect.{In, Distinct, priority_of}
use ecp_c.Semaphore.{find_waiter, thread_semaphore_p, thread_semaphore_v, thread_semaphore_free}
use ecp_c.Semaphore.Waiters.{IsWaiter, Best, find_waiter_from, release_all_from}

-- A V on a live semaphore for which no thread of the run queue waits, with fuel for the queue, adds one to its value, and changes
-- nothing else.
v-counts :
    (b : Board) (fuel sem : ℕ) (s : System) (xs : List ℕ) {value : ℕ}
    → sem ≢ 0
    → Chain s s.thread_list xs
    → length xs < fuel
    → ((x : ℕ) → In x xs → ¬ IsWaiter s sem x)
    → s.semaphores sem ≡ some value
    → thread_semaphore_v b fuel sem s ≡ some (put_semaphore s sem (u16 (value + 1)))
unfolding thread_semaphore_v
v-counts b fuel sem s xs ne chain enough nobody at_sem =
    let (e, run, best) = find_waiter_from xs s sem s.thread_list 0 fuel chain enough (inl refl) in
    let none_found : e ≡ 0 = no_one e best.origin in ground (arith, run, none_found)
  where
    no_one : (e : ℕ) → (e ≡ 0) ⊎ (In e xs × IsWaiter s sem e × (e ≢ 0)) → e ≡ 0
    no_one e (inl z) = z
    no_one e (inr (i, w, n)) = absurd (nobody e i w)

-- A V on a semaphore for which some thread of the run queue waits, with fuel for the queue, leaves its value alone. It makes one of the waiting
-- threads of the highest priority active, no longer waiting, and yields.
pub v-wakes_best :
    (b : Board) (fuel sem : ℕ) (s : System) (xs : List ℕ) (x : ℕ)
    → sem ≢ 0
    → Chain s s.thread_list xs
    → length xs < fuel
    → In x xs
    → IsWaiter s sem x
    → (e : ℕ) × (t : Thread) × In e xs
      × (s.threads e ≡ some t)
      × (t.blocked_semaphore ≡ sem)
      × ((y : ℕ) → In y xs → IsWaiter s sem y → priority_of (s.threads y) ≤ t.priority)
      × (thread_semaphore_v b fuel sem s
          ≡ thread_yield b fuel
              (put_thread s e (record t { status = active; blocked_semaphore = 0 })))
unfolding thread_semaphore_v
v-wakes_best b fuel sem s xs x ne chain enough i w =
    let (e, run, k) = find_waiter_from xs s sem s.thread_list 0 fuel chain enough (inl refl) in
    found e run k k.origin (k.best x i w).0
  where
    found :
        (e : ℕ)
        → find_waiter fuel s sem s.thread_list 0 ≡ some e
        → Best s sem xs 0 e
        → (e ≡ 0) ⊎ (In e xs × IsWaiter s sem e × (e ≢ 0))
        → e ≢ 0
        → (e : ℕ) × (t : Thread) × In e xs
          × (s.threads e ≡ some t)
          × (t.blocked_semaphore ≡ sem)
          × ((y : ℕ) → In y xs → IsWaiter s sem y → priority_of (s.threads y) ≤ t.priority)
          × (thread_semaphore_v b fuel sem s
              ≡ thread_yield b fuel
                  (put_thread s e (record t { status = active; blocked_semaphore = 0 })))
    found e run k (inl z) n = absurd (n z)
    found e run k (inr (j, (t, at_e, waits), _)) n =
        (e, t, j, at_e, waits, (λ y l v. rw at_e at ((k.best y l v).1)), ground (arith, run))

-- A P undoes a V that no thread was waiting for: from a value that is not negative, and below the
-- largest `int`, and with fuel for the queue, the two together return without a switch, and leave the state as it was.
pub p-v :
    (b : Board) (fuel sem : ℕ) (s : System) (xs : List ℕ) {value : ℕ}
    → sem ≢ 0
    → Chain s s.thread_list xs
    → length xs < fuel
    → ((x : ℕ) → In x xs → ¬ IsWaiter s sem x)
    → s.semaphores sem ≡ some value
    → value + 1 < 2 ^ 15
    → (thread_semaphore_v b fuel sem s >>= thread_semaphore_p b fuel sem) ≡ some s
unfolding thread_semaphore_p
p-v b fuel sem s xs {value} ne chain enough nobody at_sem small =
    rw (v-counts b fuel sem s xs ne chain enough nobody at_sem)
      (taken ∙ ap (λ f. some (record s { semaphores = f })) back)
  where
    up : System
    up = put_semaphore s sem (u16 (value + 1))

    taken : thread_semaphore_p b fuel sem up ≡ some (put_semaphore up sem value)
    taken = ground arith

    back : update (update s.semaphores sem (some (u16 (value + 1)))) sem (some value) ≡ s.semaphores
    back = fun_ext λ q. ground arith

-- The end of a semaphore, over a run queue of different threads with fuel for it: each thread of the queue that was
-- blocked on it, by its status and its `blocked_semaphore`, is active and waits no longer, every other
-- control block is as it was, and the semaphore is gone.
pub free-releases :
    (fuel sem : ℕ) (s : System) (xs : List ℕ)
    → sem ≢ 0
    → Chain s s.thread_list xs
    → Distinct xs
    → length xs < fuel
    → (s' : System) × (thread_semaphore_free fuel sem s ≡ some s')
      × ((x : ℕ) (t : Thread)
          → In x xs
          → s.threads x ≡ some t
          → s'.threads x
            ≡ some (
                if t.status == sem_blocked && t.blocked_semaphore == sem
                then record t { status = active; blocked_semaphore = 0 }
                else t))
      × ((q : ℕ) → ¬ In q xs → s'.threads q ≡ s.threads q)
      × (s'.semaphores sem ≡ none)
unfolding thread_semaphore_free
free-releases fuel sem s xs ne chain dis enough =
    let (s1, run, k) = release_all_from xs s sem s.thread_list fuel chain dis enough in
    (
      record s1 {
        semaphores = λ q. if sem == q then none else s1.semaphores q;
        freed = sem ∷ s1.freed;
      },
      ground (arith, run),
      k.inside,
      k.outside,
      ground arith,
    )
