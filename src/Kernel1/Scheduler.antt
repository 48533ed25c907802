-- ===== src/Kernel1/Scheduler.antt =====
-- The run queue, sleep and timer of arduino/context_switch/context_switch.ino.
use ecp_c.Base.{ℕ, Option, some, ◌==◌, if◌then◌else◌, ◌>>=◌, add32, sub32}
use ecp_c.System.{Board}
use ecp_c.Kernel2.State.{System, put_thread, cli, sei}
use ecp_c.Kernel2.Scheduler
use ecp_c.Kernel2.Scheduler.{block_with, unblock_with, sleep_with, usleep_with, tick_with}
use ecp_c.Kernel1.Switch.{do_switch}

-- The walk, with the wake-ups and the election, is that of the later version.
abbrev pub yield_loop : ℕ → System → ℕ → ℕ → Option (System × ℕ)
yield_loop = Scheduler.yield_loop

-- The ticks since the last interrupt that has returned go to the thread that runs.
unfoldable pub account : System → Option System
account s = do
  this ← s.threads s.current_thread
  some (
      put_thread s s.current_thread (record this {
        current_cost_ticks =
            add32 this.current_cost_ticks (sub32 s.tick_counter_us s.tick_counter_previous_us);
      }))

module _ (b : Board) where
  unfoldable pub thread_start : System → ℕ → Option System
  thread_start s th = do_switch b (record s { next_thread = th })

  module _ (fuel : ℕ) where
    -- There is no switch to the thread that runs.
    unfoldable pub thread_yield : System → Option System
    thread_yield s = if s.thread_list == 0 then some (cli s) else do
      (s1, candidate) ← yield_loop fuel (cli s) s.current_thread s.thread_main_inf
      s2 ← account s1
      if s2.current_thread == candidate
          then some (sei (record s2 { next_thread = candidate }))
          else thread_start s2 candidate

    unfoldable pub thread_block : System → Option System
    thread_block = block_with thread_yield

    unfoldable pub thread_unblock : ℕ → System → Option System
    thread_unblock = unblock_with thread_yield

    unfoldable pub tick_sleep : ℕ → System → Option System
    tick_sleep = sleep_with thread_yield

    unfoldable pub thread_usleep : ℕ → System → Option System
    thread_usleep = usleep_with thread_yield

    -- The timer interrupt, to the end of its `thread_yield`.
    unfoldable pub timer2_ovf : System → Option System
    timer2_ovf = tick_with thread_yield

-- What the interrupt does when its thread is switched back to.
unfoldable pub timer2_ovf_return : System → System
timer2_ovf_return s = record s { tick_counter_previous_us = s.tick_counter_us }
