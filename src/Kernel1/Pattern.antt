-- ===== src/Kernel1/Pattern.antt =====
-- `periodic_pattern` of arduino/context_switch/context_switch.ino, as the stretches between its
-- switches and its loop over them. `this` is the local `this_thread`, and `counter` the local
-- `thread_counter_us`, at first the tick of the thread's start.
use ecp_c.Base.{ℕ, Option, some, ◌==◌, ltb, if◌then◌else◌, ◌>>=◌, add32, sub32}
use ecp_c.System.{Board, deadline_miss, cost_overun}
use ecp_c.Kernel2.State.{System, Upcalls, put_thread}
use ecp_c.Kernel1.Scheduler.{tick_sleep}

-- Where the thread is in its pattern when it does not run: in front of it, or behind the sleep of a
-- cycle.
pub data Point : Type 0 where
  entered : Point
  worked : (counter : ℕ) → Point

module _ (b : Board) (u : Upcalls) (fuel : ℕ) where
  -- "Error handler process", for a cycle that took `ticks`.
  unfoldable pub check_limits : (this ticks : ℕ) → System → Option System
  check_limits this ticks s = do
    t ← s.threads this
    let checked = (do
      s1 ←
          if ltb t.max_deadline_ticks ticks
          then u.error_handler t.error_handler deadline_miss s
          else some s
      t1 ← s1.threads this
      if ltb t1.max_cost_ticks t1.current_cost_ticks
          then u.error_handler t1.error_handler cost_overun s1
          else some s1)
    if t.error_handler == 0 then some s else checked

  -- "Calculating the next stage": the next release, and the sleep until then.
  unfoldable pub next_stage : (this counter finished : ℕ) → System → Option (ℕ × System)
  next_stage this counter finished s = do
    t ← s.threads this
    let counter' = add32 counter t.min_period_ticks
    s' ← tick_sleep b fuel (sub32 counter' finished) s
    some (counter', s')

  -- A cycle. The result is the next release, and the state after the switch.
  unfoldable pub run_cycle : (this counter : ℕ) → System → Option (ℕ × System)
  run_cycle this counter s = do
    t ← s.threads this
    s1 ← u.executor t.executor (put_thread s this (record t { current_cost_ticks = 0 }))
    s2 ← check_limits this (sub32 s1.tick_counter_us counter) s1
    next_stage this counter s1.tick_counter_us s2

-- From one point of the pattern to the next.
unfoldable pub periodic_pattern :
    Board → Upcalls → (fuel this : ℕ) → Point → System → Option (Point × System)
periodic_pattern b u fuel this Point.entered s = do
  (counter', s') ← run_cycle b u fuel this s.tick_counter_us s
  some (Point.worked counter', s')
periodic_pattern b u fuel this (Point.worked counter) s = do
  (counter', s') ← run_cycle b u fuel this counter s
  some (Point.worked counter', s')
