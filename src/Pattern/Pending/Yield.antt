-- ===== src/Pattern/Pending/Yield.antt =====
-- `thread_yield` leaves the pending releases of every thread.
use ecp_c.Base.{
  ℕ, zero, suc, ◌+◌, ◌-◌, ◌*◌, ◌%◌, refl, some, arith, ◌==◌, if◌then◌else◌, Ensures, Ensures-bind,
  Ensures-lookup, Ensures-if, Ensures-some, Ensures-none,
}
use ecp_c.System.{Thread, System, Board, put_thread, ats_signal}
use ecp_c.Context.{change_high, do_switch}
use ecp_c.Scheduler.{
  wake, renew, refresh, elect, visit, yield_loop, successor, account, deliver_ats, thread_start,
  thread_yield,
}
use ecp_c.Pattern.Pending.{Release, HasPending, HandlersLeave, Pending-same}

refresh-Release : (s : System) (t : Thread) → Release t (refresh s t)
unfolding refresh wake renew
refresh-Release s t = record { pattern = ground arith; pending = ground arith }

module _ {th low high : ℕ} where
  visit-Pending :
      (s : System) (p c : ℕ)
      → HasPending th low high s
      → Ensures (visit s p c) (λ r. HasPending th low high r.0)
  unfolding visit
  visit-Pending s p c k = Ensures-lookup (s.threads p) λ t at_p.
      Ensures-lookup (elect _ _ _ _)
        λ c' ran. Ensures-some (Pending-same k p _ at_p (refresh-Release _ t))

  yield_loop-Pending :
      (fuel : ℕ) (s : System) (p c : ℕ)
      → HasPending th low high s
      → Ensures (yield_loop fuel s p c) (λ r. HasPending th low high r.0)
  unfolding yield_loop
  yield_loop-Pending zero s p c k = Ensures-none
  yield_loop-Pending (suc fuel) s p c k = Ensures-lookup (s.threads p) λ t at_p.
      let next = successor s t in
      Ensures-bind (visit s next c) (visit-Pending s next c k) λ r ran k1.
        Ensures-if (next == s.current_thread) (Ensures-some k1)
          (yield_loop-Pending fuel r.0 next r.1 k1)

  account-Pending :
      (s : System) → HasPending th low high s → Ensures (account s) (HasPending th low high)
  unfolding account
  account-Pending s k = Ensures-lookup (s.threads s.current_thread) λ t here. Ensures-some (
      Pending-same k s.current_thread _ here
        (record { pattern = ground arith; pending = ground arith }))

  module _ (b : Board) where
    change_high-Pending :
        (s : System) → HasPending th low high s → Ensures (change_high b s) (HasPending th low high)
    unfolding change_high
    change_high-Pending s k = Ensures-lookup (s.threads s.current_thread) λ t here.
        let this = record t {
          sp =
              s.cpu.ram (b.px_current_tcb_aux + 1) % 256 * 256
              + s.cpu.ram b.px_current_tcb_aux % 256;
        } in
        Ensures-lookup ((put_thread s s.current_thread this).threads s.next_thread) λ next there.
          Ensures-some
            (Pending-same k s.current_thread this here (record { pattern = refl; pending = refl }))

    do_switch-Pending :
        (s : System) → HasPending th low high s → Ensures (do_switch b s) (HasPending th low high)
    unfolding do_switch
    do_switch-Pending s k =
        Ensures-bind (change_high b _) (change_high-Pending _ k) λ s' ran k'. Ensures-some k'

    module _ (leave : HandlersLeave b th) where
      deliver_ats-Pending :
          (fuel n : ℕ) (s : System)
          → HasPending th low high s
          → Ensures (deliver_ats b fuel n s) (HasPending th low high)
      unfolding deliver_ats
      deliver_ats-Pending fuel zero s k = Ensures-none
      deliver_ats-Pending fuel (suc n) s k =
          Ensures-lookup (s.threads s.current_thread) λ this here.
            let this' = record this { ats_pending = this.ats_pending - 1 } in
            let s1 = put_thread s s.current_thread this' in
            let k1 : HasPending th low high s1 =
              Pending-same k s.current_thread this' here
                (record { pattern = refl; pending = refl }) in
            Ensures-if (this.ats_pending == 0) (Ensures-some k) (
              Ensures-bind
                (if this.error_handler == 0
                  then some s1
                  else b.error_handler this.error_handler ats_signal s1)
                (Ensures-if (this.error_handler == 0) (Ensures-some k1) (record {
                  holds = λ s2 e. leave this.error_handler ats_signal low high s1 s2 e k1;
                }))
                λ s2 e k2. deliver_ats-Pending fuel n s2 k2)

      pub thread_start-Pending :
          (fuel : ℕ) (s : System) (next : ℕ)
          → HasPending th low high s
          → Ensures (thread_start b fuel s next) (HasPending th low high)
      unfolding thread_start
      thread_start-Pending fuel s next k =
          Ensures-bind (do_switch b _) (do_switch-Pending _ k) λ s1 ran k1.
            Ensures-lookup (s1.threads s1.current_thread) λ this here.
              Ensures-if (this.ats_active == 1) (deliver_ats-Pending fuel fuel s1 k1)
                (Ensures-some k1)

      pub thread_yield-Pending :
          (fuel : ℕ) (s : System)
          → HasPending th low high s
          → Ensures (thread_yield b fuel s) (HasPending th low high)
      unfolding thread_yield
      thread_yield-Pending fuel s k = Ensures-if (s.thread_list == 0) (Ensures-some k) (
          Ensures-bind (yield_loop fuel s s.current_thread s.thread_main_inf)
            (yield_loop-Pending fuel s s.current_thread s.thread_main_inf k)
            λ r ran k1.
              Ensures-bind (account r.0) (account-Pending r.0 k1)
                λ s2 charged k2. thread_start-Pending fuel s2 r.1 k2)
