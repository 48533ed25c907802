-- ===== src/Kernel2/Pattern.antt =====
-- `periodic_pattern` of arduino/context_switch_2_0/context_switch_2_0.ino, as the stretches between
-- its switches and its loop over them. `this` is the local `this_thread`, and `counter` the local `thread_counter_us`, the
-- tick of the release.
use ecp_c.Base.{ℕ, not, Option, some, ◌==◌, leb, if◌then◌else◌, ◌>>=◌, add32, sub32}
use ecp_c.System.{Board, deadline_miss, cost_overun}
use ecp_c.Kernel2.State.{Thread, System, Upcalls, period_miss, put_thread}
use ecp_c.Kernel2.Scheduler.{tick_sleep, thread_block, get_current_cost_ticks}

-- Where the thread is in its pattern when it does not run: in front of it, behind the sleep of the
-- offset, in front of the work of a cycle, or behind the sleep of a cycle.
pub data Point : Type 0 where
  entered : Point
  started : Point
  released : (counter : ℕ) → Point
  worked : (counter : ℕ) → Point

module _ (b : Board) (u : Upcalls) (fuel : ℕ) where
  unfoldable pub start_pattern : System → Option System
  start_pattern s = do
    this ← s.threads s.current_thread
    tick_sleep b fuel this.offset_ticks
        (put_thread s s.current_thread (record this { current_cost_ticks = 0 }))

  unfoldable pub await_release : System → Option System
  await_release s = do
    this ← s.threads s.current_thread
    if not (this.block_pattern == 0) then thread_block b fuel s else some s

  -- One test of "Error handler process".
  abbrev pub raise : (this : ℕ) → (Thread → ℕ) → (Thread → ℕ) → ℕ → System → Option System
  raise this limit used errno s = do
    t ← s.threads this
    if leb (limit t) (used t) then u.error_handler t.error_handler errno s else some s

  -- "Error handler process", for a cycle that took `ticks`.
  unfoldable pub check_limits : (this ticks : ℕ) → System → Option System
  check_limits this ticks s = do
    t ← s.threads this
    let checked = (do
      s1 ← raise this (λ t. t.min_period_ticks) (λ t. ticks) period_miss s
      s2 ← raise this (λ t. t.max_deadline_ticks) (λ t. ticks) deadline_miss s1
      raise this (λ t. t.max_cost_ticks) (λ t. t.current_cost_ticks) cost_overun s2)
    if t.error_handler == 0 then some s else checked

  -- "Calculating the next stage": the next release, and the sleep until then.
  unfoldable pub next_stage : (this counter finished : ℕ) → System → Option (ℕ × System)
  next_stage this counter finished s = do
    t ← s.threads this
    let counter' = add32 counter t.min_period_ticks
    s' ← tick_sleep b fuel (sub32 counter' finished) s
    some (counter', s')

  -- A cycle from its release on. The result is the next release, and the state after the switch.
  unfoldable pub run_cycle : (this counter : ℕ) → System → Option (ℕ × System)
  run_cycle this counter s = do
    current ← s.threads s.current_thread
    let s1 = put_thread s s.current_thread (record current { current_cost_ticks = 0 })
    t ← s1.threads this
    s2 ← u.executor t.executor s1
    (_, s3) ← get_current_cost_ticks s2
    s4 ← check_limits this (sub32 s2.tick_counter_us counter) s3
    next_stage this counter s2.tick_counter_us s4

-- From one point of the pattern to the next.
unfoldable pub periodic_pattern :
    Board → Upcalls → (fuel this : ℕ) → Point → System → Option (Point × System)
periodic_pattern b u fuel this Point.entered s = do
  s' ← start_pattern b u fuel s
  some (Point.started, s')
periodic_pattern b u fuel this Point.started s = do
  s' ← await_release b u fuel s
  some (Point.released s.tick_counter_us, s')
periodic_pattern b u fuel this (Point.released counter) s = do
  (counter', s') ← run_cycle b u fuel this counter s
  some (Point.worked counter', s')
periodic_pattern b u fuel this (Point.worked counter) s = do
  s' ← await_release b u fuel s
  some (Point.released counter, s')
