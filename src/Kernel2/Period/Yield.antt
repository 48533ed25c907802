-- ===== src/Kernel2/Period/Yield.antt =====
-- `thread_yield` leaves the period of every thread.
use ecp_c.Base.{
  ℕ, zero, suc, ◌+◌, ◌*◌, ◌%◌, ◌≡◌, refl, arith, ◌==◌, Ensures, Ensures-bind, Ensures-lookup,
  Ensures-if, Ensures-some, Ensures-none,
}
use ecp_c.System.{Board}
use ecp_c.Kernel2.State.{Thread, System, put_thread, cli}
use ecp_c.Kernel2.Switch.{change_high, do_switch}
use ecp_c.Kernel2.Scheduler.{
  wake, elect, visit, yield_loop, successor, account, thread_start, thread_yield,
}
use ecp_c.Kernel2.Period.{IsPeriodic, Periodic-same}

wake-period : (s : System) (t : Thread) → (wake s t).min_period_ticks ≡ t.min_period_ticks
unfolding wake
wake-period s t = ground arith

module _ {th period : ℕ} where
  visit-Periodic :
      (s : System) (p c : ℕ)
      → IsPeriodic th period s
      → Ensures (visit s p c) (λ r. IsPeriodic th period r.0)
  unfolding visit
  visit-Periodic s p c k = Ensures-lookup (s.threads p) λ t at_p.
      Ensures-lookup (elect _ _ _ _)
        λ c' ran. Ensures-some (Periodic-same k p _ at_p (wake-period s t))

  yield_loop-Periodic :
      (fuel : ℕ) (s : System) (p c : ℕ)
      → IsPeriodic th period s
      → Ensures (yield_loop fuel s p c) (λ r. IsPeriodic th period r.0)
  unfolding yield_loop
  yield_loop-Periodic zero s p c k = Ensures-none
  yield_loop-Periodic (suc fuel) s p c k = Ensures-lookup (s.threads p) λ t at_p.
      let next = successor s t in
      Ensures-bind (visit s next c) (visit-Periodic s next c k) λ r ran k1.
        Ensures-if (next == s.current_thread) (Ensures-some k1)
          (yield_loop-Periodic fuel r.0 next r.1 k1)

  account-Periodic :
      (s : System) → IsPeriodic th period s → Ensures (account s) (IsPeriodic th period)
  unfolding account
  account-Periodic s k =
      Ensures-lookup (s.threads s.current_thread)
        λ t here. Ensures-some (Periodic-same k s.current_thread _ here (ground arith))

  module _ (b : Board) where
    change_high-Periodic :
        (s : System) → IsPeriodic th period s → Ensures (change_high b s) (IsPeriodic th period)
    unfolding change_high
    change_high-Periodic s k = Ensures-lookup (s.threads s.current_thread) λ t here.
        let this = record t {
          sp =
              s.cpu.ram (b.px_current_tcb_aux + 1) % 256 * 256
              + s.cpu.ram b.px_current_tcb_aux % 256;
        } in
        Ensures-lookup ((put_thread s s.current_thread this).threads s.next_thread)
          λ next there. Ensures-some (Periodic-same k s.current_thread this here refl)

    pub thread_start-Periodic :
        (s : System) (next : ℕ)
        → IsPeriodic th period s
        → Ensures (thread_start b s next) (IsPeriodic th period)
    unfolding thread_start do_switch
    thread_start-Periodic s next k =
        Ensures-bind (change_high b _) (change_high-Periodic _ k) λ s' ran k'. Ensures-some k'

    pub thread_yield-Periodic :
        (fuel : ℕ) (s : System)
        → IsPeriodic th period s
        → Ensures (thread_yield b fuel s) (IsPeriodic th period)
    unfolding thread_yield
    thread_yield-Periodic fuel s k = Ensures-if (s.thread_list == 0) (Ensures-some k) (
        Ensures-bind (yield_loop fuel (cli s) s.current_thread s.thread_main_inf)
          (yield_loop-Periodic fuel (cli s) s.current_thread s.thread_main_inf k)
          λ r ran k1.
            Ensures-bind (account r.0) (account-Periodic r.0 k1)
              λ s2 charged k2. thread_start-Periodic s2 r.1 k2)
