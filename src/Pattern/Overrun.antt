-- ===== src/Pattern/Overrun.antt =====
-- The wait of a periodic thread after a cycle: to the next release, or, after an overrun of the
-- period, to the overflow of the tick counter.
use ecp_c.Base.{
  refl, ℕ, ◌+◌, ◌^◌, ◌≤◌, ◌<◌, ◌≡◌, ◌≢◌, some, ltb, if◌then◌else◌, arith, add32, sub32,
}
use ecp_c.System.{Thread, System, Board, active, slept, put_thread}
use ecp_c.Scheduler.{wake, thread_yield}
use ecp_c.Threads.{sleeping, tick_sleep}
use ecp_c.Threads.Sleep.{wake-sleeping, wake-sleeping_carry}
use ecp_c.Pattern.{next_stage}

-- A cycle of a periodic or sporadic thread that has ended by the end of its period, where the counter
-- does not wrap and does not move on between the end of the cycle and the sleep, yields with the
-- thread asleep, and the scheduler wakes it when the counter has passed
-- the start of the cycle plus the period.
pub next_stage-in_time :
    (b : Board) (fuel started finished : ℕ) (s : System) {t : Thread}
    → s.threads s.current_thread ≡ some t
    → t.block_pattern ≢ 0x02
    → s.global_thread_tick_counter ≡ finished
    → started ≤ finished
    → finished ≤ started + t.min_period_ticks
    → started + t.min_period_ticks < 2 ^ 32
    → (t' : Thread) × (t'.status ≡ slept)
      × (next_stage b fuel s.current_thread started finished s
          ≡ thread_yield b fuel (put_thread s s.current_thread t'))
      × ((later : System)
          → wake later t' ≡ (
              if ltb (started + t.min_period_ticks) later.global_thread_tick_counter
              then record t' { status = active }
              else t'))
unfolding next_stage tick_sleep sleeping
next_stage-in_time b fuel started finished s {t} here pat now ran fits small = (
  sleeping s.global_thread_tick_counter ticks t,
  refl,
  ground arith,
  λ later. rw release at (wake-sleeping later s.global_thread_tick_counter ticks t (omega arith)),
)
  where
    ticks : ℕ
    ticks = sub32 (add32 started t.min_period_ticks) finished

    release : s.global_thread_tick_counter + ticks ≡ started + t.min_period_ticks
    release = omega arith

-- A cycle that ends after its period, where the counter does not wrap, yields with the thread
-- asleep, and no walk of the run queue wakes it before an overflow of the 32-bit tick counter is
-- flagged.
pub next_stage-overrun :
    (b : Board) (fuel started finished : ℕ) (s : System) {t : Thread}
    → s.threads s.current_thread ≡ some t
    → t.block_pattern ≢ 0x02
    → started + t.min_period_ticks < finished
    → finished ≤ s.global_thread_tick_counter
    → s.global_thread_tick_counter < 2 ^ 32
    → (t' : Thread) × (t'.status ≡ slept)
      × (next_stage b fuel s.current_thread started finished s
          ≡ thread_yield b fuel (put_thread s s.current_thread t'))
      × ((later : System) → later.carry_tick_counter ≢ 1 → wake later t' ≡ t')
unfolding next_stage tick_sleep sleeping
next_stage-overrun b fuel started finished s {t} here pat over now small = (
  sleeping s.global_thread_tick_counter ticks t,
  refl,
  ground arith,
  λ later quiet.
      wake-sleeping_carry later s.global_thread_tick_counter ticks t (omega arith) (omega arith)
        (omega arith) quiet,
)
  where
    ticks : ℕ
    ticks = sub32 (add32 started t.min_period_ticks) finished
