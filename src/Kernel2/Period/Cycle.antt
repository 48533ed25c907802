-- ===== src/Kernel2/Period/Cycle.antt =====
-- A cycle that ends within its period sleeps to the next tick of the grid, over runs of the loop of its
-- thread and of the kernel.
use ecp_c.Base.{ℕ, ◌≡◌, Option, some, sub32}
use ecp_c.System.{Board}
use ecp_c.Kernel2.State.{Thread, System, Upcalls, put_thread}
use ecp_c.Kernel2.Scheduler.{get_current_cost_ticks}
use ecp_c.Kernel2.Call.{Call}
use ecp_c.Kernel2.Pattern.{Point, check_limits}
use ecp_c.Kernel2.Loop.{Loop}

-- The work of a cycle, up to "Calculating the next stage": the thread is at `s` in front of it, and at
-- `s'` behind it. The work ends at tick `finished`, and the calls behind it return within that tick.
pub record Works (b : Board) (u : Upcalls) (fuel this counter finished : ℕ) (s s' : System)
    : Type 0 where
  pub runs : s.current_thread ≡ this
  pub block : (t : Thread) × (s.threads this ≡ some t)
  pub done : System
  pub executed :
      u.executor (block.0).executor (put_thread s this (record block.0 { current_cost_ticks = 0 }))
      ≡ some done
  pub cost : ℕ
  pub measured_in : System
  pub measured : get_current_cost_ticks done ≡ some (cost, measured_in)
  pub checked :
      check_limits b u fuel this (sub32 done.tick_counter_us counter) measured_in ≡ some s'
  pub still : s'.current_thread ≡ this
  pub ended : done.tick_counter_us ≡ finished
  pub now : s'.tick_counter_us ≡ finished

-- The point behind a cycle.
abbrev behind : ℕ × System → Option (Point × System)
behind r = some (Point.worked r.0, r.1)
