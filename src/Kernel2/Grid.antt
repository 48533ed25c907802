-- ===== src/Kernel2/Grid.antt =====
-- The releases of a periodic thread of arduino/context_switch_2_0/context_switch_2_0.ino lie on a
-- grid, for cycles that end within the period.
use ecp_c.Base.{
  refl, ℕ, ◌+◌, ◌^◌, ◌≤◌, ◌<◌, ◌≡◌, some, ltb, if◌then◌else◌, arith, add32, sub32, ◌>>=◌,
}
use ecp_c.System.{Board, active, slept}
use ecp_c.Kernel2.State.{Thread, System, Upcalls, put_thread, cli}
use ecp_c.Kernel2.Scheduler.{wake, thread_yield, sleep_with, tick_sleep}
use ecp_c.Kernel2.Pattern.{next_stage}

-- A cycle that was released at tick `counter` and has ended by the next release, where the counter
-- does not wrap and does not move on between the end of the cycle and the sleep: the next release is
-- `counter` plus the period, at whatever tick up to then the cycle has ended, and the thread yields
-- asleep, with that release as its wake-up tick, and is woken when the counter has passed it.
pub next_stage-release :
    (b : Board) (u : Upcalls) (fuel counter : ℕ) (s : System) {t : Thread}
    → s.threads s.current_thread ≡ some t
    → counter ≤ s.tick_counter_us
    → s.tick_counter_us ≤ counter + t.min_period_ticks
    → counter + t.min_period_ticks < 2 ^ 32
    → (t' : Thread) × (t'.flags ≡ slept)
      × (t'.ticks_to_wait ≡ counter + t.min_period_ticks)
      × (next_stage b u fuel s.current_thread counter s.tick_counter_us s ≡ (
          thread_yield b fuel (put_thread (cli s) s.current_thread t') >>= λ s'.
          some (counter + t.min_period_ticks, s')))
      × ((later : System)
          → wake later t' ≡ (
              if ltb (counter + t.min_period_ticks) later.tick_counter_us
              then record t' { flags = active }
              else t'))
unfolding next_stage tick_sleep sleep_with wake
next_stage-release b u fuel counter s {t} here begun fits small = (
  record t { flags = slept; ticks_to_wait = counter + t.min_period_ticks; carry_ticks_to_wait = 0 },
  refl,
  refl,
  ground (arith, release, until),
  λ later. ground arith,
)
  where
    release : add32 counter t.min_period_ticks ≡ counter + t.min_period_ticks
    release = omega arith

    until :
        add32 (sub32 (counter + t.min_period_ticks) s.tick_counter_us) s.tick_counter_us
        ≡ counter + t.min_period_ticks
    until = omega arith
