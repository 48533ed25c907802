-- ===== src/Kernel2/Call.antt =====
-- The calls that an application makes of the kernel of
-- arduino/context_switch_2_0/context_switch_2_0.ino, its interrupt included.
use ecp_c.Base.{ℕ, Option, some, ◌>>=◌}
use ecp_c.System.{Board}
use ecp_c.Kernel2.State.{System, Upcalls}
use ecp_c.Kernel2.Scheduler.{
  get_current_cost_ticks, thread_yield, thread_block, thread_unblock, tick_sleep, thread_usleep,
  timer2_ovf, timer2_ovf_return,
}
use ecp_c.Kernel2.Create.{
  Mallocs, thread_create, periodic_thread_create, sporadic_thread_create, aperiodic_thread_create,
}

pub data Call : Type 0 where
  create : Mallocs → (entry stack stack_size priority parm : ℕ) → Call
  create_periodic :
      Mallocs
      → (entry stack stack_size priority offset_us period_us max_deadline_us max_cost_us
          error_handler : ℕ)
      → Call
  create_sporadic :
      Mallocs
      → (entry stack stack_size priority offset_us mit_period_us max_deadline_us max_cost_us
          error_handler : ℕ)
      → Call
  create_aperiodic :
      Mallocs
      → (entry stack stack_size priority offset_us max_deadline_us max_cost_us error_handler : ℕ)
      → Call
  yield : Call
  sleep : ℕ → Call
  usleep : ℕ → Call
  block : Call
  unblock : ℕ → Call
  tick : Call
  tick_return : Call
  measure : Call

-- The state behind a result.
abbrev pub state_of {ℓ} : {A : Type ℓ} → Option (A × System) → Option System
state_of o = o >>= λ r. some r.1

module _ (b : Board) (u : Upcalls) (fuel : ℕ) where
  unfoldable pub call : Call → System → Option System
  call (create m entry stack size priority parm) s =
      state_of (thread_create b m entry stack size priority parm s)
  call (create_periodic m entry stack size priority offset period deadline cost handler) s =
      state_of (
        periodic_thread_create b u m entry stack size priority offset period deadline cost handler
          s)
  call (create_sporadic m entry stack size priority offset period deadline cost handler) s =
      state_of (
        sporadic_thread_create b u m entry stack size priority offset period deadline cost handler
          s)
  call (create_aperiodic m entry stack size priority offset deadline cost handler) s =
      state_of
        (aperiodic_thread_create b u m entry stack size priority offset deadline cost handler s)
  call yield s = thread_yield b fuel s
  call (sleep ticks) s = tick_sleep b fuel ticks s
  call (usleep time_us) s = thread_usleep b fuel time_us s
  call block s = thread_block b fuel s
  call (unblock th) s = thread_unblock b fuel th s
  call tick s = timer2_ovf b fuel s
  call tick_return s = some (timer2_ovf_return s)
  call measure s = state_of (get_current_cost_ticks s)
