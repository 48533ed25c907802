-- ===== src/Kernel2/Scheduler.antt =====
-- The run queue of arduino/context_switch_2_0/context_switch_2_0.ino: yield, block, sleep and the
-- timer interrupt. As in the library, the code behind a switch runs in the thread that is switched
-- to; for a thread that was suspended in `thread_yield` it is `resume`.
use ecp_c.Base.{
  ℕ, zero, suc, not, ◌&&◌, Option, some, none, ◌==◌, ltb, leb, if◌then◌else◌, ◌>>=◌, add32, sub32,
  mul32, ◌/◌,
}
use ecp_c.System.{Board, slept, active, blocked, overrun_prio, us_per_tick, yield_max}
use ecp_c.Kernel2.State.{Thread, System, put_thread, cli, sei}
use ecp_c.Kernel2.Switch.{do_switch}

unfoldable pub get_current_cost_ticks : System → Option (ℕ × System)
get_current_cost_ticks s = do
  this ← s.threads s.current_thread
  let added = sub32 s.tick_counter_us s.tick_counter_last_cost_us
  let cost = add32 this.current_cost_ticks added
  some (
    cost,
    sei (
        put_thread
          (record s { tick_counter_last_cost_us = add32 s.tick_counter_last_cost_us added })
          s.current_thread (record this { current_cost_ticks = cost })),
  )

unfoldable pub get_current_cost : System → Option (ℕ × System)
unfolding get_current_cost_ticks
get_current_cost s = get_current_cost_ticks s >>= λ r. some (mul32 r.0 us_per_tick, r.1)

unfoldable pub get_current_priority : System → Option ℕ
get_current_priority s = s.threads s.current_thread >>= λ this. some this.priority

unfoldable pub wake : System → Thread → Thread
wake s th =
    if th.flags == slept
    then (let th1 =
          if th.carry_ticks_to_wait == 1 && s.carry_tick_counter == 1
          then record th { carry_ticks_to_wait = 0 }
          else th in
        if th1.carry_ticks_to_wait == 0 && ltb th1.ticks_to_wait s.tick_counter_us
        then record th1 { flags = active }
        else th1)
    else th

unfoldable pub elect : System → ℕ → Thread → ℕ → Option ℕ
elect s p th candidate =
    if th.flags == active
    then (s.threads candidate >>= λ c.
        some (if leb c.priority th.priority && not (p == s.current_thread) then p else candidate))
    else some candidate

unfoldable pub visit : System → ℕ → ℕ → Option (System × ℕ)
visit s p candidate = do
  th ← s.threads p
  let th' = wake s th
  let s' = put_thread (record s { next_thread = p }) p th'
  candidate' ← elect s' p th' candidate
  some (s', candidate')

abbrev pub successor : System → Thread → ℕ
successor s th = if th.runq_next == 0 then s.thread_list else th.runq_next

unfoldable pub yield_loop : ℕ → System → ℕ → ℕ → Option (System × ℕ)
yield_loop zero s p candidate = none
yield_loop (suc fuel) s p candidate = do
  th ← s.threads p
  let next = successor s th
  (s', candidate') ← visit s next candidate
  let rest = yield_loop fuel s' next candidate'
  if next == s.current_thread then some (s', candidate') else rest

-- The ticks since the last accounting go to the thread that runs.
abbrev pub charge : System → Thread → Thread
charge s th = record th {
  current_cost_ticks =
      add32 th.current_cost_ticks (sub32 s.tick_counter_us s.tick_counter_last_cost_us);
}

abbrev pub charged_until : System → ℕ
charged_until s =
    add32 s.tick_counter_last_cost_us (sub32 s.tick_counter_us s.tick_counter_last_cost_us)

-- A thread over its budget drops to the overrun priority.
abbrev pub demote : Thread → Thread
demote th =
    if ltb th.max_cost_ticks th.current_cost_ticks
    then record th { priority = overrun_prio }
    else th

unfoldable pub account : System → Option System
account s = do
  this ← s.threads s.current_thread
  some (
      put_thread (record s { tick_counter_last_cost_us = charged_until s }) s.current_thread
        (demote (charge s this)))

-- The tail of `thread_yield`, in the thread that was switched to.
abbrev pub resume : System → System
resume s = sei s

module _ (b : Board) where
  unfoldable pub thread_start : System → ℕ → Option System
  thread_start s th = do_switch b (record s { next_thread = th })

  module _ (fuel : ℕ) where
    -- With no thread there is no `sei` on the way out.
    unfoldable pub thread_yield : System → Option System
    unfolding thread_start
    thread_yield s = if s.thread_list == 0 then some (cli s) else do
      (s1, candidate) ← yield_loop fuel (cli s) s.current_thread s.thread_main_inf
      s2 ← account s1
      thread_start s2 candidate

-- Block, sleep and the interrupt, over the yield that they end in.
module _ (yield : System → Option System) where
  unfoldable pub block_with : System → Option System
  block_with s = do
    this ← s.threads s.current_thread
    if this.flags == active
        then yield (put_thread (cli s) s.current_thread (record this { flags = blocked }))
        else some (sei s)

  unfoldable pub unblock_with : ℕ → System → Option System
  unblock_with th s = do
    t ← s.threads th
    if t.flags == blocked
        then yield (put_thread (cli s) th (record t { flags = active }))
        else some (sei s)

  unfoldable pub sleep_with : ℕ → System → Option System
  sleep_with ticks s = do
    this ← s.threads s.current_thread
    let until = add32 ticks s.tick_counter_us
    yield (
        put_thread (cli s) s.current_thread (record this {
          flags = slept;
          ticks_to_wait = until;
          carry_ticks_to_wait = if ltb until s.tick_counter_us then 1 else 0;
        }))

  unfoldable pub usleep_with : ℕ → System → Option System
  usleep_with time_us s = do
    this ← s.threads s.current_thread
    sleep_with (time_us / us_per_tick)
        (put_thread (cli s) s.current_thread (record this { flags = slept }))

  -- The timer interrupt up to its switch.
  unfoldable pub tick_with : System → Option System
  tick_with s =
      let s1 = record s { tick_counter_us = add32 s.tick_counter_us 1; yield = add32 s.yield 1 } in
      if s1.yield == yield_max
      then yield (record s1 {
        yield = 0;
        carry_tick_counter = if ltb s1.tick_counter_us s1.tick_counter_previous_us then 1 else 0;
      })
      else some s1

module _ (b : Board) (fuel : ℕ) where
  unfoldable pub thread_block : System → Option System
  thread_block = block_with (thread_yield b fuel)

  unfoldable pub thread_unblock : ℕ → System → Option System
  thread_unblock = unblock_with (thread_yield b fuel)

  unfoldable pub tick_sleep : ℕ → System → Option System
  tick_sleep = sleep_with (thread_yield b fuel)

  unfoldable pub thread_usleep : ℕ → System → Option System
  thread_usleep = usleep_with (thread_yield b fuel)

  unfoldable pub timer2_ovf : System → Option System
  timer2_ovf = tick_with (thread_yield b fuel)

-- What the interrupt does when its thread is switched back to.
unfoldable pub timer2_ovf_return : System → System
timer2_ovf_return s = record s { tick_counter_previous_us = s.tick_counter_us }
