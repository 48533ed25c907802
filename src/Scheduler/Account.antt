-- ===== src/Scheduler/Account.antt =====
-- The cost accounting of `thread_yield`.
use ecp_c.Base.{◌+◌, ◌-◌, ◌^◌, ◌%◌, ◌≤◌, ◌<◌, ◌≡◌, some, arith, ltb, if◌then◌else◌}
use ecp_c.System.{Thread, System, overrun_prio, put_thread}
use ecp_c.Scheduler.{account}

-- The accounting charges the ticks since the last accounting, modulo 2 ^ 32, to the thread that
-- runs, and starts anew at the present tick. If the sum is over the thread's budget, the priority of
-- the thread drops to the overrun priority. Nothing else changes.
pub account_lem :
    (s : System) {this : Thread}
    → s.threads s.current_thread ≡ some this
    → s.tick_counter_last_cost ≤ s.global_thread_tick_counter
    → s.global_thread_tick_counter < 2 ^ 32
    → let cost =
        (this.current_cost_ticks + (s.global_thread_tick_counter - s.tick_counter_last_cost))
        % 2 ^ 32 in
      account s
      ≡ some (
          put_thread
            (record s { tick_counter_last_cost = s.global_thread_tick_counter })
            s.current_thread
            (if ltb this.max_cost_ticks cost
              then record this { current_cost_ticks = cost; priority = overrun_prio }
              else record this { current_cost_ticks = cost }))
unfolding account
account_lem s {this} here past small = ground arith
