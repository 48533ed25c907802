-- ===== src/Lifecycle/Rest/Entry.antt =====
-- A thread that puts itself to rest stays so while others run.
use ecp_c.Base.{
  ℕ, ◌+◌, ◌≤◌, ◌<◌, ◌≡◌, ◌≢◌, List, ◌∷◌, some, arith, ◌==◌, ==→eq, Ensures-test, true, ◌^◌, sle16,
  Ensures,
}
use ecp_c.System.{Thread, System, Board, put_thread, active, blocked, slept, sem_blocked}
use ecp_c.Scheduler.{thread_yield}
use ecp_c.Threads.{sleeping, tick_sleep, thread_block}
use ecp_c.Semaphore.{thread_semaphore_p}
use ecp_c.Lifecycle.Call.{Call, call}
use ecp_c.Lifecycle.Runs.{Run}
use ecp_c.Lifecycle.Rest.{Rests, HandlersSpare, Same-refl}
use ecp_c.Lifecycle.Rest.Yield.{thread_yield-Rests}
use ecp_c.Lifecycle.Rest.Runs.{AllSpare, ticks, run-Rests}

-- The thread does not run, and has the status `status`.
abbrev pub IsOff : (th status : ℕ) → System → Type 0
IsOff th status s =
    (s.current_thread ≢ th) × ((t : Thread) × (s.threads th ≡ some t) × (t.status ≡ status))

Rests-IsOff : (th : ℕ) (t0 : Thread) (n : ℕ) (s : System) → Rests th t0 n s → IsOff th t0.status s
Rests-IsOff th t0 n s k = let (t, at_th, same) = k.sits.block in (k.off, (t, at_th, same.status))

module _ (b : Board) (fuel : ℕ) (s : System) (spare : HandlersSpare b s.current_thread)
    (queue : s.thread_list ≢ 0) (not_main : s.thread_main_inf ≢ s.current_thread) where
  -- The running thread writes its control block and yields.
  park :
      (t' : Thread) (n : ℕ)
      → t'.status ≢ active
      → (t'.status ≡ slept
          → (t'.carry_ticks_to_wait ≡ 0) × (s.global_thread_tick_counter + n ≤ t'.ticks_to_wait))
      → Ensures
          (thread_yield b fuel (put_thread s s.current_thread t'))
          (Rests s.current_thread t' n)
  park t' n idle time =
      thread_yield-Rests b spare fuel (put_thread s s.current_thread t')
        (record {
          block = (t', ground arith, Same-refl t');
          idle = idle;
          not_main = not_main;
          time = time;
        })
        (λ e. absurd (queue e))

  go_on :
      (c : Call) (cs : List Call) (t' : Thread) (s' : System)
      → Ensures (call b fuel c s) (Rests s.current_thread t' (ticks cs))
      → AllSpare s.current_thread t'.status t'.blocked_semaphore cs
      → Run b fuel (c ∷ cs) s s'
      → IsOff s.current_thread t'.status s'
  go_on c cs t' s' parks spared (Run.step {s1 = s1} fresh ran run) =
      Rests-IsOff s.current_thread t' 0 s'
        (run-Rests b fuel s.current_thread t' cs s1 s' spare (parks.holds s1 ran) spared run)

-- A thread other than main, over a run queue, sleeps for `duration` ticks, where the sum with the
-- counter does not wrap: over any run of calls that return, with no more than `duration` ticks, it does
-- not run and is asleep. In the run no call removes the thread or makes a control block in the place of
-- its own, none is a V on or a free of the semaphore that its `blocked_semaphore` names, and the error
-- handlers do not disturb it.
pub sleep_rests :
    (b : Board) (fuel duration : ℕ) (cs : List Call) (s s' : System) {this : Thread}
    → HandlersSpare b s.current_thread
    → s.thread_list ≢ 0
    → s.thread_main_inf ≢ s.current_thread
    → s.threads s.current_thread ≡ some this
    → duration + s.global_thread_tick_counter < 2 ^ 32
    → ticks cs ≤ duration
    → AllSpare s.current_thread slept this.blocked_semaphore cs
    → Run b fuel (Call.sleep duration ∷ cs) s s'
    → IsOff s.current_thread slept s'
unfolding call tick_sleep sleeping
sleep_rests b fuel duration cs s s' {this} spare queue not_main here small early spared run =
    let this' = sleeping s.global_thread_tick_counter duration this in
    go_on b fuel s spare queue not_main (Call.sleep duration) cs this' s'
      (rw here (
        park b fuel s spare queue not_main this' (ticks cs) (omega arith)
          (λ e. (ground (arith, small), omega (arith, small, early)))))
      spared run

-- A thread other than main, over a run queue, that is active blocks itself: over any run of calls that
-- return it does not run and is blocked. In the run no call unblocks, signals or removes the thread or
-- makes a control block in the place of its own, none is a V on or a free of the semaphore that its
-- `blocked_semaphore` names, and the error handlers do not disturb it.
pub block_rests :
    (b : Board) (fuel : ℕ) (cs : List Call) (s s' : System) {this : Thread}
    → HandlersSpare b s.current_thread
    → s.thread_list ≢ 0
    → s.thread_main_inf ≢ s.current_thread
    → s.threads s.current_thread ≡ some this
    → this.status ≡ active
    → AllSpare s.current_thread blocked this.blocked_semaphore cs
    → Run b fuel (Call.block ∷ cs) s s'
    → IsOff s.current_thread blocked s'
unfolding call thread_block
block_rests b fuel cs s s' {this} spare queue not_main here runs spared run =
    let this' : Thread = record this { status = blocked } in
    go_on b fuel s spare queue not_main Call.block cs this' s'
      (rw (here, runs)
        (park b fuel s spare queue not_main this' (ticks cs) (omega arith)
          (λ e. absurd (omega (arith, e)))))
      spared run

-- A thread other than main, over a run queue, does P on a semaphore whose value is not positive: over any
-- run of calls that return it does not run and waits. In the run no call is a V on that semaphore or
-- frees it, none removes the thread or makes a control block in the place of its own, and the error
-- handlers do not disturb it.
pub p_rests :
    (b : Board) (fuel sem value : ℕ) (cs : List Call) (s s' : System) {this : Thread}
    → HandlersSpare b s.current_thread
    → s.thread_list ≢ 0
    → s.thread_main_inf ≢ s.current_thread
    → s.threads s.current_thread ≡ some this
    → sem ≢ 0
    → s.semaphores sem ≡ some value
    → sle16 value 0 ≡ true
    → AllSpare s.current_thread sem_blocked sem cs
    → Run b fuel (Call.semaphore_p sem ∷ cs) s s'
    → IsOff s.current_thread sem_blocked s'
unfolding call thread_semaphore_p
p_rests b fuel sem value cs s s' {this} spare queue not_main here null at_sem empty spared run =
    let this' : Thread = record this { blocked_semaphore = sem; status = sem_blocked } in
    go_on b fuel s spare queue not_main (Call.semaphore_p sem) cs this' s'
      (Ensures-test (sem == 0) (λ e. absurd (null (==→eq sem 0 e)))
        (λ _.
          rw (at_sem, empty, here)
            (park b fuel s spare queue not_main this' (ticks cs) (omega arith)
              (λ e. absurd (omega (arith, e))))))
      spared run
