-- ===== src/Remove.antt =====
-- `thread_remove` of arduino/libraries/rtthreads/rtthreads.cpp: a thread is taken out of the run
-- queue, and its stack and control block are freed.
pub mod Unlink
use ecp_c.Base.{ℕ, zero, suc, ◌-◌, ◌∷◌, Bool, ◌||◌, Option, some, none, ◌==◌, if◌then◌else◌, ◌>>=◌}
use ecp_c.System.{Thread, System, put_thread}

-- The loop: where it stops, and the thread before.
unfoldable pub find_previous : ℕ → System → ℕ → ℕ → ℕ → Option (ℕ × ℕ)
find_previous zero s th p previous = none
find_previous (suc n) s th p previous =
    let rest = (s.threads p >>= λ t. find_previous n s th t.runq_next p) in
    if p == s.thread_main_inf || p == th then some (p, previous) else rest

unfoldable pub unlink : System → ℕ → ℕ → Thread → Option System
unlink s th previous t =
    if th == s.thread_list
    then some (record s { thread_list = t.runq_next })
    else s.threads previous >>= λ u.
        some (put_thread s previous (record u { runq_next = t.runq_next }))

-- The result, 0 or -1 as a 16-bit `int`, and the state.
unfoldable pub thread_remove : ℕ → ℕ → System → Option (ℕ × System)
unfolding find_previous unlink
thread_remove fuel th s = do
  (index, previous) ← find_previous fuel s th s.thread_list s.thread_list
  let removed = (do
    t ← s.threads th
    s1 ← unlink s th previous t
    some (
      0,
      record s1 {
        threads = λ q. if th == q then none else s1.threads q;
        freed = th ∷ t.stack ∷ s1.freed;
      },
    ))
  if index == s.thread_main_inf then some (0x1_0000 - 1, s) else removed
