-- ===== src/Scheduler.antt =====
-- The scheduler of arduino/libraries/rtthreads/rtthreads.cpp: `thread_yield` walks the circular run
-- queue once, wakes sleepers whose time has come, elects a thread and switches to it; `thread_start`
-- switches, and then delivers the pending ATS signals of the thread that runs. The code behind the
-- switch runs in the thread that is switched to, which was itself suspended there. `fuel` bounds the
-- two loops.
pub mod Ring
pub mod Elect
pub mod Yield
pub mod Account
pub mod Signals
pub mod Start
pub mod Preempt
pub mod Highest
pub mod Whole
pub mod Chain
pub mod Kept
use ecp_c.Base.{
  ℕ, zero, suc, ◌-◌, not, ◌&&◌, Option, some, none, ◌==◌, ltb, leb, if◌then◌else◌, ◌>>=◌, add32,
  sub32, mul32,
}
use ecp_c.System.{
  Thread, System, Board, slept, active, blocked, overrun_prio, ats_signal, put_thread,
}
use ecp_c.Context.{do_switch}

-- "Check if threads have to the awaken": a sleeper whose wait wraps past the counter's end stays
-- until the overflow was seen, and wakes when the counter has passed its tick.
unfoldable pub wake : System → Thread → Thread
wake s th =
    if th.status == slept
    then (let th1 =
          if th.carry_ticks_to_wait == 1 && s.carry_tick_counter == 1
          then record th { carry_ticks_to_wait = 0 }
          else th in
        if th1.carry_ticks_to_wait == 0 && ltb th1.ticks_to_wait s.global_thread_tick_counter
        then record th1 { status = active }
        else th1)
    else th

-- "SIGNAL SUPPORT": the last arrival of a blocked thread is kept within two periods of the counter.
unfoldable pub renew : System → Thread → Thread
renew s th =
    if th.status == blocked
    then (if ltb (add32 th.queue_last_input (mul32 2 th.min_period_ticks))
          s.global_thread_tick_counter
        then record th { queue_last_input = add32 th.queue_last_input th.min_period_ticks }
        else th)
    else th

unfoldable pub refresh : System → Thread → Thread
refresh s th = renew s (wake s th)

-- Whether the thread at `p` becomes the candidate. The thread that runs never does.
unfoldable pub elect : System → ℕ → Thread → ℕ → Option ℕ
elect s p th candidate =
    if th.status == active
    then (s.threads candidate >>= λ c.
        some (if leb c.priority th.priority && not (p == s.current_thread) then p else candidate))
    else some candidate

-- The body of the loop, at the thread `p` that it has come to.
unfoldable pub visit : System → ℕ → ℕ → Option (System × ℕ)
visit s p candidate = do
  th ← s.threads p
  let th' = refresh s th
  let s' = put_thread (record s { next_thread = p }) p th'
  candidate' ← elect s' p th' candidate
  some (s', candidate')

abbrev pub successor : System → Thread → ℕ
successor s th = if th.runq_next == 0 then s.thread_list else th.runq_next

-- The loop, from the thread `p` on; it ends at the thread that runs.
unfoldable pub yield_loop : ℕ → System → ℕ → ℕ → Option (System × ℕ)
yield_loop zero s p candidate = none
yield_loop (suc fuel) s p candidate = do
  th ← s.threads p
  let next = successor s th
  (s', candidate') ← visit s next candidate
  let rest = yield_loop fuel s' next candidate'
  if next == s.current_thread then some (s', candidate') else rest

-- The ticks since the last accounting go to the thread that runs.
abbrev pub charge : System → Thread → Thread
charge s th = record th {
  current_cost_ticks =
      add32 th.current_cost_ticks (sub32 s.global_thread_tick_counter s.tick_counter_last_cost);
}

abbrev pub charged_until : System → ℕ
charged_until s =
    add32 s.tick_counter_last_cost (sub32 s.global_thread_tick_counter s.tick_counter_last_cost)

-- A thread over its budget drops to the overrun priority.
abbrev pub demote : Thread → Thread
demote th =
    if ltb th.max_cost_ticks th.current_cost_ticks
    then record th { priority = overrun_prio }
    else th

unfoldable pub account : System → Option System
account s = do
  this ← s.threads s.current_thread
  some (
      put_thread (record s { tick_counter_last_cost = charged_until s }) s.current_thread
        (demote (charge s this)))

module _ (b : Board) (fuel : ℕ) where
  unfoldable pub deliver_ats : ℕ → System → Option System
  deliver_ats zero s = none
  deliver_ats (suc n) s = do
    this ← s.threads s.current_thread
    let s1 = put_thread s s.current_thread (record this { ats_pending = this.ats_pending - 1 })
    let handled =
        (if this.error_handler == 0
          then some s1
          else b.error_handler this.error_handler ats_signal s1)
    let rest = (handled >>= deliver_ats n)
    if this.ats_pending == 0 then some s else rest

  unfoldable pub thread_start : System → ℕ → Option System
  unfolding deliver_ats
  thread_start s th = do
    s' ← do_switch b (record s { next_thread = th })
    this ← s'.threads s'.current_thread
    if this.ats_active == 1 then deliver_ats fuel s' else some s'

  unfoldable pub thread_yield : System → Option System
  thread_yield s = if s.thread_list == 0 then some s else do
    (s1, candidate) ← yield_loop fuel s s.current_thread s.thread_main_inf
    s2 ← account s1
    thread_start s2 candidate
