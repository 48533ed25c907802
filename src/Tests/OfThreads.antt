-- ===== src/Tests/OfThreads.antt =====
-- Sleeping threads, and the release queue of a sporadic one, at concrete times.
use ecp_c.Base.{◌%◌, ◌==◌, ◌+◌, ◌-◌, ◌^◌, ◌≤◌, ◌≡◌, ◌≢◌, refl, arith, if◌then◌else◌, ltb}
use ecp_c.System.{Thread, System, active, slept, put_thread}
use ecp_c.Scheduler.{wake, thread_yield}
use ecp_c.Threads.{timer2_ovf, timer2_ovf_return, arrival, mit_violation}
use ecp_c.Threads.Timer.{timer2_ovf-timer2_ovf_return}
use ecp_c.Threads.Signal.{arrival_bounded, arrival_overfills}
use ecp_c.Pattern.{next_stage}
use ecp_c.Pattern.Overrun.{next_stage-in_time, next_stage-overrun}
use ecp_c.Tests.Fixtures.{board, system, first}

-- A sporadic thread with two releases allowed and two pending, the last one at tick 100.
abbrev sporadic : Thread
sporadic = record first {
  block_pattern = 0x01;
  mit_policy = 0x22;
  min_period_ticks = 10;
  queue_length_max = 2;
  queue_pending = 2;
  queue_last_input = 100;
}

arrival_bounded_example : (arrival 120 sporadic).1.queue_pending ≤ 2 + 1
arrival_bounded_example = arrival_bounded 120 sporadic (omega arith) (omega arith) (omega arith)

arrival_overfills_example :
    ((arrival 120 sporadic).0 ≡ 0) × ((arrival 120 sporadic).1.queue_pending ≡ 2 + 1)
arrival_overfills_example = arrival_overfills 120 sporadic (omega arith) refl (omega arith)

-- With room for the release, which comes too early.
abbrev early : Thread
early = record sporadic { queue_pending = 1 }

refused : (arrival 105 early).0 ≢ 0
unfolding arrival mit_violation
refused = omega arith

-- A period of 30 ticks.
abbrev periodic : System
periodic = put_thread system 10 (record first { min_period_ticks = 30 })

next_stage-in_time_example :
    (t' : Thread) × (t'.status ≡ slept)
    × (next_stage board 3 10 25 50 periodic ≡ thread_yield board 3 (put_thread periodic 10 t'))
    × ((later : System)
        → wake later t' ≡ (
            if ltb (25 + 30) later.global_thread_tick_counter
            then record t' { status = active }
            else t'))
next_stage-in_time_example =
    next_stage-in_time board 3 25 50 periodic refl (omega arith) refl (omega arith) (omega arith)
      (omega arith)

next_stage-overrun_example :
    (t' : Thread) × (t'.status ≡ slept)
    × (next_stage board 3 10 15 50 periodic ≡ thread_yield board 3 (put_thread periodic 10 t'))
    × ((later : System) → later.carry_tick_counter ≢ 1 → wake later t' ≡ t')
next_stage-overrun_example =
    next_stage-overrun board 3 15 50 periodic refl (omega arith) (omega arith) (omega arith)
      (omega arith)

-- The last tick before the counter overflows.
abbrev full : System
full = record system { global_thread_tick_counter = 0xffff_ffff }

timer2_ovf-timer2_ovf_return_example :
    timer2_ovf board 3 (timer2_ovf_return full)
    ≡ thread_yield board 3 (record full {
      global_thread_tick_counter = (0xffff_ffff + 1) % 2 ^ 32;
      tick_counter_previous = 0xffff_ffff;
      carry_tick_counter = if 0xffff_ffff == 2 ^ 32 - 1 then 1 else 0;
    })
timer2_ovf-timer2_ovf_return_example = timer2_ovf-timer2_ovf_return board 3 full (omega arith) refl
