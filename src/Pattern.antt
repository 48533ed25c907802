-- ===== src/Pattern.antt =====
-- `periodic_pattern` of arduino/libraries/rtthreads/rtthreads.cpp, the entry of every thread, as the
-- stretches between its calls that switch, and its loop over them. `this` is the local
-- `this_thread`.
pub mod Overrun
pub mod Pending
pub mod Loop
use ecp_c.Base.{
  ℕ, ◌+◌, Bool, not, ◌&&◌, Option, some, ◌==◌, leb, if◌then◌else◌, ◌>>=◌, add32, sub32, sle32,
}
use ecp_c.System.{Thread, System, Board, deadline_miss, cost_overun, put_thread}
use ecp_c.Threads.{tick_sleep, thread_block, get_current_cost_ticks}

-- The condition of "The thread blocks itself".
abbrev pub must_wait : Thread → Bool
must_wait this = not (this.block_pattern == 0x00) && sle32 this.queue_pending 0

-- Where the thread is in its pattern when it does not run: in front of it, in front of the test "The
-- thread blocks itself", or behind the work and the sleep of a cycle.
pub data Point : Type 0 where
  entered : Point
  waiting : Point
  worked : Point

module _ (b : Board) (fuel : ℕ) where
  unfoldable pub start_pattern : System → Option System
  start_pattern s = do
    this ← s.threads s.current_thread
    tick_sleep b fuel this.offset_ticks
        (put_thread s s.current_thread (record this { current_cost_ticks = 0 }))

  -- One test of "The thread blocks itself".
  unfoldable pub await_release : System → Option System
  await_release s = do
    this ← s.threads s.current_thread
    if must_wait this then thread_block b fuel s else some s

  -- "Error handler process", for a cycle from `started` to `finished`.
  unfoldable pub check_limits : (this started finished : ℕ) → System → Option System
  check_limits this started finished s = do
    t ← s.threads this
    let late = leb t.max_deadline_ticks (sub32 finished started)
    let checked = (do
      s1 ← if late then b.error_handler t.error_handler deadline_miss s else some s
      t1 ← s1.threads this
      if leb t1.max_cost_ticks t1.current_cost_ticks
          then b.error_handler t1.error_handler cost_overun s1
          else some s1)
    if t.error_handler == 0 then some s else checked

  -- "Calculating the next stage", for a cycle from `started` to `finished`.
  unfoldable pub next_stage : (this started finished : ℕ) → System → Option System
  next_stage this started finished s = do
    t ← s.threads this
    current ← s.threads s.current_thread
    if current.block_pattern == 0x02
        then some s
        else tick_sleep b fuel (sub32 (add32 started t.min_period_ticks) finished) s

  unfoldable pub run_cycle : (this : ℕ) → System → Option System
  run_cycle this s = do
    current ← s.threads s.current_thread
    let s1 = put_thread s s.current_thread (record current { current_cost_ticks = 0 })
    t ← s1.threads this
    s2 ← b.executor t.executor s1
    (_, s3) ← get_current_cost_ticks s2
    s4 ← check_limits this s.global_thread_tick_counter s2.global_thread_tick_counter s3
    next_stage this s.global_thread_tick_counter s2.global_thread_tick_counter s4

unfoldable pub end_cycle : System → Option System
end_cycle s = do
  current ← s.threads s.current_thread
  some (
      put_thread s s.current_thread
        (record current { queue_pending = sub32 current.queue_pending 1 }))

-- From one point of the pattern to the next. The thread that blocks itself tests again when it is
-- switched back to.
unfoldable pub periodic_pattern : Board → (fuel this : ℕ) → Point → System → Option (Point × System)
periodic_pattern b fuel this Point.entered s = do
  s' ← start_pattern b fuel s
  some (Point.waiting, s')
periodic_pattern b fuel this Point.waiting s = do
  current ← s.threads s.current_thread
  let blocked = (await_release b fuel s >>= λ s'. some (Point.waiting, s'))
  let cycle = (run_cycle b fuel this s >>= λ s'. some (Point.worked, s'))
  if must_wait current then blocked else cycle
periodic_pattern b fuel this Point.worked s = do s' ← end_cycle s; some (Point.waiting, s')
