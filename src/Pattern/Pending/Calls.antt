-- ===== src/Pattern/Pending/Calls.antt =====
-- The operations of the library on the pending releases of a thread: only a signal to it adds one.
use ecp_c.Base.{
  ℕ, zero, suc, ◌/◌, ◌≡◌, ◌≢◌, refl, sym, Option, some, arith, ◌==◌, add32, sle16, Ensures,
  Ensures-bind, Ensures-lookup, Ensures-if, Ensures-some, Ensures-none,
}
use ecp_c.System.{
  Thread, System, Board, put_thread, active, slept, blocked, sem_blocked, us_per_tick, yield_max,
}
use ecp_c.Scheduler.{thread_yield, charge}
use ecp_c.Threads.{
  sleeping, get_current_cost_ticks, tick_sleep, thread_usleep, thread_block, thread_unblock,
  thread_ats_signal, thread_ats_enable, thread_ats_disable, timer2_ovf,
}
use ecp_c.Semaphore.{
  find_waiter, released, release_all, thread_semaphore_create, thread_semaphore_p,
  thread_semaphore_v, thread_semaphore_free,
}
use ecp_c.Remove.{find_previous, unlink, thread_remove}
use ecp_c.Pattern.Pending.{Release, HasPending, HandlersLeave, Pending-same, Pending-other}
use ecp_c.Pattern.Pending.Yield.{thread_yield-Pending}

module _ {th low high : ℕ} where
  pub thread_ats_disable-Pending :
      (s : System)
      → HasPending th low high s
      → Ensures (thread_ats_disable s) (HasPending th low high)
  unfolding thread_ats_disable
  thread_ats_disable-Pending s k = Ensures-lookup (s.threads s.current_thread) λ this here.
      Ensures-if (this.ats_active == 1)
        (Ensures-some (
          Pending-same k s.current_thread (record this { ats_active = 0 }) here
            (record { pattern = refl; pending = refl })))
        (Ensures-some k)

  pub get_current_cost_ticks-Pending :
      (s : System)
      → HasPending th low high s
      → Ensures (get_current_cost_ticks s) (λ r. HasPending th low high r.1)
  unfolding get_current_cost_ticks
  get_current_cost_ticks-Pending s k = Ensures-lookup (s.threads s.current_thread) λ this here.
      Ensures-some (
        Pending-same k s.current_thread (charge s this) here
          (record { pattern = refl; pending = refl }))

  pub semaphore_create-Pending :
      (at : Option ℕ) (value : ℕ) (s : System)
      → HasPending th low high s
      → Ensures (thread_semaphore_create at value s) (λ r. HasPending th low high r.1)
  unfolding thread_semaphore_create
  semaphore_create-Pending at value s k = Ensures-lookup at λ sem got. Ensures-some k

  release_all-Pending :
      (fuel : ℕ) (s : System) (sem p : ℕ)
      → HasPending th low high s
      → Ensures (release_all fuel s sem p) (HasPending th low high)
  unfolding release_all
  release_all-Pending zero s sem p k = Ensures-none
  release_all-Pending (suc fuel) s sem p k = Ensures-if (p == s.thread_main_inf) (Ensures-some k) (
      Ensures-lookup (s.threads p) λ t at_p.
        release_all-Pending fuel (put_thread s p (released sem t)) sem t.runq_next (
          Pending-same k p (released sem t) at_p
            (record { pattern = ground arith; pending = ground arith })))

  pub thread_semaphore_free-Pending :
      (fuel sem : ℕ) (s : System)
      → HasPending th low high s
      → Ensures (thread_semaphore_free fuel sem s) (HasPending th low high)
  unfolding thread_semaphore_free
  thread_semaphore_free-Pending fuel sem s k = Ensures-if (sem == 0) (Ensures-some k) (
      Ensures-bind (release_all fuel s sem s.thread_list)
        (release_all-Pending fuel s sem s.thread_list k) λ s' ran k'. Ensures-some k')

  unlink-Pending :
      (s : System) (away previous : ℕ) (t : Thread)
      → HasPending th low high s
      → Ensures (unlink s away previous t) (HasPending th low high)
  unfolding unlink
  unlink-Pending s away previous t k = Ensures-if (away == s.thread_list) (Ensures-some k) (
      Ensures-lookup (s.threads previous) λ u here.
        Ensures-some (Pending-same k previous _ here (record { pattern = refl; pending = refl })))

  pub thread_remove-Pending :
      (fuel away : ℕ) (s : System)
      → away ≢ th
      → HasPending th low high s
      → Ensures (thread_remove fuel away s) (λ r. HasPending th low high r.1)
  unfolding thread_remove
  thread_remove-Pending fuel away s ne k =
      Ensures-lookup (find_previous fuel s away s.thread_list s.thread_list) λ r found.
        Ensures-if (r.0 == s.thread_main_inf) (Ensures-some k) (
          Ensures-lookup (s.threads away) λ t here.
            Ensures-bind (unlink s away r.1 t) (unlink-Pending s away r.1 t k)
              λ s1 ran k1. Ensures-some (Pending-other k1 away _ (λ e. ne (sym e))))

  module _ (b : Board) (leave : HandlersLeave b th) (fuel : ℕ) where
    pub yield-Pending :
        (s : System)
        → HasPending th low high s
        → Ensures (thread_yield b fuel s) (HasPending th low high)
    yield-Pending s k = thread_yield-Pending b leave fuel s k

    -- A control block is written back with its releases, and `thread_yield` follows.
    put-yield-Pending :
        (s : System) (p : ℕ) {t : Thread} (t' : Thread)
        → HasPending th low high s
        → s.threads p ≡ some t
        → Release t t'
        → Ensures (thread_yield b fuel (put_thread s p t')) (HasPending th low high)
    put-yield-Pending s p t' k at_p same =
        yield-Pending (put_thread s p t') (Pending-same k p t' at_p same)

    pub tick_sleep-Pending :
        (ticks : ℕ) (s : System)
        → HasPending th low high s
        → Ensures (tick_sleep b fuel ticks s) (HasPending th low high)
    unfolding tick_sleep sleeping
    tick_sleep-Pending ticks s k = Ensures-lookup (s.threads s.current_thread) λ this here.
        put-yield-Pending s s.current_thread (sleeping s.global_thread_tick_counter ticks this) k
          here (record { pattern = refl; pending = refl })

    pub thread_usleep-Pending :
        (us : ℕ) (s : System)
        → HasPending th low high s
        → Ensures (thread_usleep b fuel us s) (HasPending th low high)
    unfolding thread_usleep
    thread_usleep-Pending us s k = Ensures-lookup (s.threads s.current_thread) λ this here.
        let this' = record this { status = slept } in
        tick_sleep-Pending (us / us_per_tick) (put_thread s s.current_thread this')
          (Pending-same k s.current_thread this' here (record { pattern = refl; pending = refl }))

    pub thread_block-Pending :
        (s : System)
        → HasPending th low high s
        → Ensures (thread_block b fuel s) (HasPending th low high)
    unfolding thread_block
    thread_block-Pending s k = Ensures-lookup (s.threads s.current_thread) λ this here.
        Ensures-if (this.status == active)
          (put-yield-Pending s s.current_thread (record this { status = blocked }) k here
            (record { pattern = refl; pending = refl }))
          (Ensures-some k)

    pub thread_unblock-Pending :
        (p : ℕ) (s : System)
        → HasPending th low high s
        → Ensures (thread_unblock b fuel p s) (HasPending th low high)
    unfolding thread_unblock
    thread_unblock-Pending p s k = Ensures-lookup (s.threads p) λ t at_p.
        Ensures-if (t.status == blocked)
          (put-yield-Pending s p (record t { status = active }) k at_p
            (record { pattern = refl; pending = refl }))
          (Ensures-some k)

    pub thread_ats_signal-Pending :
        (p : ℕ) (s : System)
        → HasPending th low high s
        → Ensures (thread_ats_signal b fuel p s) (λ r. HasPending th low high r.1)
    unfolding thread_ats_signal
    thread_ats_signal-Pending p s k = Ensures-lookup (s.threads p) λ t at_p.
        let t' = record t { ats_pending = add32 t.ats_pending 1 } in
        Ensures-bind (thread_yield b fuel (put_thread s p t'))
          (put-yield-Pending s p t' k at_p (record { pattern = refl; pending = refl }))
          λ s' ran k'. Ensures-some k'

    pub thread_ats_enable-Pending :
        (s : System)
        → HasPending th low high s
        → Ensures (thread_ats_enable b fuel s) (HasPending th low high)
    unfolding thread_ats_enable
    thread_ats_enable-Pending s k = Ensures-lookup (s.threads s.current_thread) λ this here.
        Ensures-if (this.ats_active == 0)
          (put-yield-Pending s s.current_thread (record this { ats_active = 1 }) k here
            (record { pattern = refl; pending = refl }))
          (Ensures-some k)

    pub timer2_ovf-Pending :
        (s : System)
        → HasPending th low high s
        → Ensures (timer2_ovf b fuel s) (HasPending th low high)
    unfolding timer2_ovf
    timer2_ovf-Pending s k =
        Ensures-if (add32 s.yield 1 == yield_max) (yield-Pending _ k) (Ensures-some k)

    pub thread_semaphore_p-Pending :
        (sem : ℕ) (s : System)
        → HasPending th low high s
        → Ensures (thread_semaphore_p b fuel sem s) (HasPending th low high)
    unfolding thread_semaphore_p
    thread_semaphore_p-Pending sem s k = Ensures-if (sem == 0) (Ensures-some k) (
        Ensures-lookup (s.semaphores sem) λ value at_sem.
          Ensures-if (sle16 value 0)
            (Ensures-lookup (s.threads s.current_thread) λ this here.
              put-yield-Pending s s.current_thread
                (record this { blocked_semaphore = sem; status = sem_blocked }) k here
                (record { pattern = refl; pending = refl }))
            (Ensures-some k))

    pub thread_semaphore_v-Pending :
        (sem : ℕ) (s : System)
        → HasPending th low high s
        → Ensures (thread_semaphore_v b fuel sem s) (HasPending th low high)
    unfolding thread_semaphore_v
    thread_semaphore_v-Pending sem s k = Ensures-if (sem == 0) (Ensures-some k) (
        Ensures-lookup (find_waiter fuel s sem s.thread_list 0) λ c found.
          Ensures-if (c == 0) (Ensures-lookup (s.semaphores sem) λ value at_sem. Ensures-some k) (
            Ensures-lookup (s.threads c) λ t at_c.
              put-yield-Pending s c (record t { status = active; blocked_semaphore = 0 }) k at_c
                (record { pattern = refl; pending = refl })))
