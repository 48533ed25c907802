-- ===== src/Threads.antt =====
-- The operations of arduino/libraries/rtthreads/rtthreads.cpp that put a thread to sleep, block it,
-- signal it, and count time. Each ends, at the latest, in the context switch of its `thread_yield`:
-- what the source does behind that call is done when the thread is switched back to.
pub mod Sleep
pub mod Signal
pub mod Timer
pub mod Wakeup
pub mod Signalled
use ecp_c.Base.{
  ℕ, ◌-◌, ◌*◌, ◌/◌, ◌%◌, not, ◌||◌, Option, some, ◌==◌, ltb, if◌then◌else◌, ◌>>=◌, add32, sub32,
  mul32, sle32,
}
use ecp_c.System.{
  ats_signal, Thread, System, Board, slept, active, blocked, us_per_tick, yield_max, put_thread,
}
use ecp_c.Scheduler.{thread_yield, charge, charged_until}

unfoldable pub thread_get_time : System → ℕ
thread_get_time s = mul32 s.global_thread_tick_counter us_per_tick

unfoldable pub thread_get_error_in_time : System → ℕ
thread_get_error_in_time s = us_per_tick

-- The accounting of a running thread: its cost so far, and the state afterwards.
unfoldable pub get_current_cost_ticks : System → Option (ℕ × System)
get_current_cost_ticks s = do
  this ← s.threads s.current_thread
  let this' = charge s this
  some (
    this'.current_cost_ticks,
    put_thread (record s { tick_counter_last_cost = charged_until s }) s.current_thread this',
  )

unfoldable pub get_current_cost : System → Option (ℕ × System)
get_current_cost s = do (ticks, s') ← get_current_cost_ticks s; some (mul32 ticks us_per_tick, s')

unfoldable pub get_current_priority : System → Option ℕ
get_current_priority s = s.threads s.current_thread >>= λ this. some this.priority

unfoldable pub thread_get_params : System → Option ℕ
thread_get_params s = s.threads s.current_thread >>= λ this. some this.params_and_data

-- The control block of a thread that goes to sleep for `ticks` at time `now`. The sum wraps, and
-- the carry says so.
unfoldable pub sleeping : ℕ → ℕ → Thread → Thread
sleeping now ticks this = record this {
  status = slept;
  ticks_to_wait = add32 ticks now;
  carry_ticks_to_wait = if ltb (add32 ticks now) now then 1 else 0;
}

-- What a signal does to the queue of a sporadic or aperiodic thread, and its result; `int` is 16
-- bits wide. First the violation of the minimum interarrival time, then the overflow.
unfoldable pub mit_violation : ℕ → ℕ → Thread → ℕ × Thread
mit_violation now policy_mit th =
    if policy_mit == 0x01
    then (0, record th { queue_last_input = now; queue_pending = add32 th.queue_pending 1 })
    else if policy_mit == 0x02
    then (0x02, th)
    else if policy_mit == 0x03
    then (0, th)
    else if policy_mit == 0x04
    then (0, record th { queue_last_input = now })
    else (0x1_0000 - 3, th)

unfoldable pub overflow_violation : ℕ → ℕ → Thread → ℕ × Thread
overflow_violation now policy_ov th =
    if policy_ov == 0x10
    then (0, record th { queue_pending = add32 th.queue_pending 1; queue_last_input = now })
    else if policy_ov == 0x20
    then (0x20, th)
    else if policy_ov == 0x30
    then (0, th)
    else if policy_ov == 0x40
    then (0, record th { queue_last_input = now })
    else (0x1_0000 - 2, th)

unfoldable pub arrival : ℕ → Thread → ℕ × Thread
arrival now th =
    let policy_mit = th.mit_policy % 16 in
    let policy_ov = th.mit_policy / 16 % 16 * 16 in
    if sle32 th.queue_pending th.queue_length_max
    then (if ltb th.min_period_ticks (sub32 now th.queue_last_input)
          || not (th.block_pattern == 0x01)
        then (0, record th { queue_last_input = now; queue_pending = add32 th.queue_pending 1 })
        else mit_violation now policy_mit th)
    else overflow_violation now policy_ov th

module _ (b : Board) (fuel : ℕ) where
  unfoldable pub tick_sleep : ℕ → System → Option System
  tick_sleep ticks s = do
    this ← s.threads s.current_thread
    thread_yield b fuel
        (put_thread s s.current_thread (sleeping s.global_thread_tick_counter ticks this))

  unfoldable pub thread_usleep : ℕ → System → Option System
  thread_usleep time_us s = do
    this ← s.threads s.current_thread
    tick_sleep (time_us / us_per_tick)
        (put_thread s s.current_thread (record this { status = slept }))

  unfoldable pub thread_block : System → Option System
  thread_block s = do
    this ← s.threads s.current_thread
    if this.status == active
        then thread_yield b fuel (put_thread s s.current_thread (record this { status = blocked }))
        else some s

  unfoldable pub thread_unblock : ℕ → System → Option System
  thread_unblock th s = do
    t ← s.threads th
    if t.status == blocked
        then thread_yield b fuel (put_thread s th (record t { status = active }))
        else some s

  -- The result, -1 for NULL, and the state.
  unfoldable pub thread_signal : ℕ → System → Option (ℕ × System)
  thread_signal th s = if th == 0 then some (0x1_0000 - 1, s) else (do
    t ← s.threads th
    let (result, t') = arrival s.global_thread_tick_counter t
    s' ← thread_unblock th (put_thread s th t')
    some (result, s'))

  -- The result is always 0.
  unfoldable pub thread_ats_signal : ℕ → System → Option (ℕ × System)
  thread_ats_signal th s = do
    t ← s.threads th
    s' ← thread_yield b fuel (put_thread s th (record t { ats_pending = add32 t.ats_pending 1 }))
    some (0, s')

  unfoldable pub thread_ats_enable : System → Option System
  thread_ats_enable s = do
    this ← s.threads s.current_thread
    if this.ats_active == 0
        then thread_yield b fuel (put_thread s s.current_thread (record this { ats_active = 1 }))
        else some s

  -- The timer interrupt up to its switch, and what it does when its thread is switched back to.
  unfoldable pub timer2_ovf : System → Option System
  timer2_ovf s =
      let s1 = record s {
        global_thread_tick_counter = add32 s.global_thread_tick_counter 1;
        yield = add32 s.yield 1;
      } in
      if s1.yield == yield_max
      then thread_yield b fuel (record s1 {
        yield = 0;
        carry_tick_counter =
            if ltb s1.global_thread_tick_counter s1.tick_counter_previous then 1 else 0;
      })
      else some s1

unfoldable pub timer2_ovf_return : System → System
timer2_ovf_return s = record s { tick_counter_previous = s.global_thread_tick_counter }

unfoldable pub thread_ats_disable : System → Option System
thread_ats_disable s = do
  this ← s.threads s.current_thread
  if this.ats_active == 1
      then some (put_thread s s.current_thread (record this { ats_active = 0 }))
      else some s

-- Both are empty in the source but for the result 0.
unfoldable pub thread_ats_set_maximum : ℕ → System → System
thread_ats_set_maximum max s = s

unfoldable pub thread_ats_get_maximum : System → ℕ
thread_ats_get_maximum s = 0

-- Empty in the source.
unfoldable pub thread_ms : ℕ → System → System
thread_ms time_ms s = s

unfoldable pub attach_thread_to_interrupt : (interrupt thr mode : ℕ) → System → System
attach_thread_to_interrupt interrupt thr mode s = s

unfoldable pub thread_internals_threadlist : System → ℕ
thread_internals_threadlist s = s.thread_list

-- The signal's handler, called from an interrupt.
unfoldable pub push_ats_signal : Board → System → Option System
push_ats_signal b s = do
  this ← s.threads s.current_thread
  if this.error_handler == 0 then some s else b.error_handler this.error_handler ats_signal s
