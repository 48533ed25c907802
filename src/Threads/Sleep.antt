-- ===== src/Threads/Sleep.antt =====
-- When the scheduler wakes a sleeping thread.
use ecp_c.Base.{ℕ, ◌+◌, ◌-◌, ◌^◌, ◌≤◌, ◌<◌, ◌≡◌, ◌≢◌, ltb, if◌then◌else◌, arith}
use ecp_c.System.{Thread, System, active}
use ecp_c.Scheduler.{wake}
use ecp_c.Threads.{sleeping}

-- A thread that goes to sleep for `ticks` at time `now`, where the sum stays below 2 ^ 32, is woken
-- when the tick counter has passed `now + ticks`, and is left as it is until then.
pub wake-sleeping :
    (s : System) (now ticks : ℕ) (this : Thread)
    → now + ticks < 2 ^ 32
    → let t = sleeping now ticks this in
      wake s t
      ≡ (if ltb (now + ticks) s.global_thread_tick_counter then record t { status = active } else t)
unfolding wake sleeping
wake-sleeping s now ticks this fits = ground arith

-- Where the sum of two 32-bit words wraps, the thread sleeps on through every walk of the run queue
-- in which no overflow of the counter is flagged, whatever the counter says.
pub wake-sleeping_carry :
    (s : System) (now ticks : ℕ) (this : Thread)
    → now < 2 ^ 32
    → ticks < 2 ^ 32
    → 2 ^ 32 ≤ now + ticks
    → s.carry_tick_counter ≢ 1
    → wake s (sleeping now ticks this) ≡ sleeping now ticks this
unfolding wake sleeping
wake-sleeping_carry s now ticks this hn ht wraps quiet = ground arith

-- Where the sum of two 32-bit words wraps and an overflow is flagged, the carry is cleared, and the thread wakes as soon as the wrapped
-- counter has passed the wrapped sum.
wake-sleeping_overflow :
    (s : System) (now ticks : ℕ) (this : Thread)
    → now < 2 ^ 32
    → ticks < 2 ^ 32
    → 2 ^ 32 ≤ now + ticks
    → s.carry_tick_counter ≡ 1
    → let t = record (sleeping now ticks this) { carry_ticks_to_wait = 0 } in
      wake s (sleeping now ticks this) ≡ (
        if ltb (now + ticks - 2 ^ 32) s.global_thread_tick_counter
        then record t { status = active }
        else t)
unfolding wake sleeping
wake-sleeping_overflow s now ticks this hn ht wraps flagged = ground arith
