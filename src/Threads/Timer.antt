-- ===== src/Threads/Timer.antt =====
-- The detection of an overflow of the tick counter by the interrupt of timer 2.
use ecp_c.Base.{ℕ, ◌+◌, ◌-◌, ◌^◌, ◌%◌, ◌<◌, ◌≡◌, arith, ◌==◌, if◌then◌else◌}
use ecp_c.System.{System, Board}
use ecp_c.Scheduler.{thread_yield}
use ecp_c.Threads.{timer2_ovf, timer2_ovf_return}

-- A tick after one whose interrupt has returned: the counter goes up by one, modulo 2 ^ 32, the
-- overflow is flagged if and only if the counter has come to 0, and the interrupt yields.
pub timer2_ovf-timer2_ovf_return :
    (b : Board) (fuel : ℕ) (s : System)
    → s.global_thread_tick_counter < 2 ^ 32
    → s.yield ≡ 0
    → timer2_ovf b fuel (timer2_ovf_return s)
      ≡ thread_yield b fuel (record s {
        global_thread_tick_counter = (s.global_thread_tick_counter + 1) % 2 ^ 32;
        tick_counter_previous = s.global_thread_tick_counter;
        carry_tick_counter = if s.global_thread_tick_counter == 2 ^ 32 - 1 then 1 else 0;
      })
unfolding timer2_ovf timer2_ovf_return
timer2_ovf-timer2_ovf_return b fuel s small none_since = ground arith
