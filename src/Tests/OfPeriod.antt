-- ===== src/Tests/OfPeriod.antt =====
-- A periodic thread of the earlier kernel works a cycle, sleeps while others run, is woken by the timer
-- interrupt, and works the next one.
use ecp_c.Base.{ℕ, Option, some, none}
use ecp_c.Kernel2.State.{Thread, System, put_thread}
use ecp_c.Kernel2.Scheduler.{get_current_cost_ticks}
use ecp_c.Kernel2.Call.{Call, call}
use ecp_c.Kernel2.Pattern.{Point, periodic_pattern}
use ecp_c.Kernel2.Loop.{Loop}
use ecp_c.Tests.Fixtures.{board}
use ecp_c.Tests.OfKernel2.{system, first, upcalls}

-- A period of 2 ticks, released at tick 49; it is tick 50.
abbrev periodic : System
periodic = put_thread system 10 (record first { min_period_ticks = 2 })

abbrev state_behind : Option (Point × System) → System
state_behind none = periodic
state_behind (some r) = r.1

abbrev state_of : Option System → System
state_of none = periodic
state_of (some s) = s

abbrev cycled : System
cycled = state_behind (periodic_pattern board upcalls 3 10 (Point.released 49) periodic)

-- The interrupts at ticks 51 and 52.
abbrev early : System
early = state_of (call board upcalls 3 Call.tick cycled)

abbrev woken : System
woken = state_of (call board upcalls 3 Call.tick early)

abbrev block_at : Option Thread → Thread
block_at none = first
block_at (some t) = t

-- The second cycle, with its cost measured.
abbrev begun : System
begun = put_thread woken 10 (record (block_at (woken.threads 10)) { current_cost_ticks = 0 })

abbrev pair_behind : Option (ℕ × System) → ℕ × System
pair_behind none = (0, periodic)
pair_behind (some r) = r

abbrev measured : System
measured = (pair_behind (get_current_cost_ticks begun)).1
