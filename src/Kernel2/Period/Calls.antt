-- ===== src/Kernel2/Period/Calls.antt =====
-- Sleep, block and the interrupt leave the period of every thread.
use ecp_c.Base.{
  ℕ, ◌/◌, ◌≡◌, refl, some, ◌==◌, add32, Ensures, Ensures-lookup, Ensures-if, Ensures-some,
}
use ecp_c.System.{Board, slept, active, blocked, us_per_tick, yield_max}
use ecp_c.Kernel2.State.{Thread, System, put_thread, cli}
use ecp_c.Kernel2.Scheduler.{
  get_current_cost_ticks, thread_yield, block_with, unblock_with, sleep_with, usleep_with,
  tick_with, thread_block, thread_unblock, tick_sleep, thread_usleep, timer2_ovf,
}
use ecp_c.Kernel2.Period.{IsPeriodic, Periodic-same}
use ecp_c.Kernel2.Period.Yield.{thread_yield-Periodic}

module _ {th period : ℕ} where
  pub get_current_cost_ticks-Periodic :
      (s : System)
      → IsPeriodic th period s
      → Ensures (get_current_cost_ticks s) (λ r. IsPeriodic th period r.1)
  unfolding get_current_cost_ticks
  get_current_cost_ticks-Periodic s k =
      Ensures-lookup (s.threads s.current_thread)
        λ this here. Ensures-some (Periodic-same k s.current_thread _ here refl)

  module _ (b : Board) (fuel : ℕ) where
    -- A control block is written back with its period, and `thread_yield` follows.
    put-yield-Periodic :
        (s : System) (p : ℕ) {t : Thread} (t' : Thread)
        → IsPeriodic th period s
        → s.threads p ≡ some t
        → t'.min_period_ticks ≡ t.min_period_ticks
        → Ensures (thread_yield b fuel (put_thread (cli s) p t')) (IsPeriodic th period)
    put-yield-Periodic s p t' k at_p same =
        thread_yield-Periodic b fuel (put_thread (cli s) p t') (Periodic-same k p t' at_p same)

    pub tick_sleep-Periodic :
        (ticks : ℕ) (s : System)
        → IsPeriodic th period s
        → Ensures (tick_sleep b fuel ticks s) (IsPeriodic th period)
    unfolding tick_sleep sleep_with
    tick_sleep-Periodic ticks s k =
        Ensures-lookup (s.threads s.current_thread)
          λ this here. put-yield-Periodic s s.current_thread _ k here refl

    pub thread_usleep-Periodic :
        (us : ℕ) (s : System)
        → IsPeriodic th period s
        → Ensures (thread_usleep b fuel us s) (IsPeriodic th period)
    unfolding thread_usleep usleep_with
    thread_usleep-Periodic us s k = Ensures-lookup (s.threads s.current_thread) λ this here.
        unfold tick_sleep in
        tick_sleep-Periodic (us / us_per_tick)
          (put_thread (cli s) s.current_thread (record this { flags = slept }))
          (Periodic-same k s.current_thread _ here refl)

    pub thread_block-Periodic :
        (s : System)
        → IsPeriodic th period s
        → Ensures (thread_block b fuel s) (IsPeriodic th period)
    unfolding thread_block block_with
    thread_block-Periodic s k = Ensures-lookup (s.threads s.current_thread) λ this here.
        Ensures-if (this.flags == active) (put-yield-Periodic s s.current_thread _ k here refl)
          (Ensures-some k)

    pub thread_unblock-Periodic :
        (p : ℕ) (s : System)
        → IsPeriodic th period s
        → Ensures (thread_unblock b fuel p s) (IsPeriodic th period)
    unfolding thread_unblock unblock_with
    thread_unblock-Periodic p s k = Ensures-lookup (s.threads p) λ t at_p.
        Ensures-if (t.flags == blocked) (put-yield-Periodic s p _ k at_p refl) (Ensures-some k)

    pub timer2_ovf-Periodic :
        (s : System) → IsPeriodic th period s → Ensures (timer2_ovf b fuel s) (IsPeriodic th period)
    unfolding timer2_ovf tick_with
    timer2_ovf-Periodic s k =
        Ensures-if (add32 s.yield 1 == yield_max) (thread_yield-Periodic b fuel _ k)
          (Ensures-some k)
