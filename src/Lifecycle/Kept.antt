-- ===== src/Lifecycle/Kept.antt =====
-- The operations that end in `thread_yield`, and those on semaphores, keep the run queue and the place
-- of the thread that runs on its circle.
use ecp_c.Base.{
  ℕ, zero, suc, ◌/◌, ◌≡◌, refl, some, arith, ◌==◌, add32, sle16, Ensures, Ensures-bind,
  Ensures-lookup, Ensures-if, Ensures-mono, Ensures-some, Ensures-none,
}
use ecp_c.System.{
  Thread, System, Board, put_thread, us_per_tick, slept, active, blocked, yield_max, sem_blocked,
}
use ecp_c.Scheduler.{thread_yield}
use ecp_c.Scheduler.Kept.{HandlersKeep}
use ecp_c.Lifecycle.Lands.{HandlersStay}
use ecp_c.Lifecycle.Keeps.{
  Keeps, Keeps-refl, Keeps-trans, Keeps-update, keeps_queue, thread_yield-Keeps,
}
use ecp_c.Threads.{
  sleeping, arrival, mit_violation, overflow_violation, tick_sleep, thread_usleep, thread_block,
  thread_unblock, thread_signal, thread_ats_signal, thread_ats_enable, thread_ats_disable,
  timer2_ovf,
}
use ecp_c.Semaphore.{
  find_waiter, released, release_all, thread_semaphore_p, thread_semaphore_v, thread_semaphore_free,
}

arrival_next : (now : ℕ) (t : Thread) → (arrival now t).1.runq_next ≡ t.runq_next
unfolding arrival mit_violation overflow_violation
arrival_next now t = ground arith

-- `stay` is what is asked for of the handlers.
module _ (stay : Type 0) where
  pub thread_ats_disable-Keeps : (s : System) → Ensures (thread_ats_disable s) (Keeps stay s)
  unfolding thread_ats_disable
  thread_ats_disable-Keeps s = Ensures-lookup (s.threads s.current_thread) λ this here.
      Ensures-if (this.ats_active == 1)
        (Ensures-some (
          Keeps-update s _ s.current_thread (record this { ats_active = 0 }) here refl refl refl
            refl refl))
        (Ensures-some (Keeps-refl s))

  release_all-Keeps :
      (fuel : ℕ) (s : System) (sem p : ℕ) → Ensures (release_all fuel s sem p) (Keeps stay s)
  unfolding release_all
  release_all-Keeps zero s sem p = Ensures-none
  release_all-Keeps (suc fuel) s sem p =
      Ensures-if (p == s.thread_main_inf) (Ensures-some (Keeps-refl s)) (
        Ensures-lookup (s.threads p) λ t at_p.
          Ensures-mono
            (λ s'.
              Keeps-trans
                (Keeps-update s _ p (released sem t) at_p (ground arith) refl refl refl refl))
            (release_all-Keeps fuel _ sem t.runq_next))

  pub thread_semaphore_free-Keeps :
      (fuel sem : ℕ) (s : System) → Ensures (thread_semaphore_free fuel sem s) (Keeps stay s)
  unfolding thread_semaphore_free
  thread_semaphore_free-Keeps fuel sem s = Ensures-if (sem == 0) (Ensures-some (Keeps-refl s)) (
      Ensures-bind (release_all fuel s sem s.thread_list)
        (release_all-Keeps fuel s sem s.thread_list)
        λ s' ran k. Ensures-some (
          Keeps-trans k (keeps_queue (record { main = refl; head = refl; next = λ q. refl }) refl)))

module _ (b : Board) (handlers : HandlersKeep b) (fuel : ℕ) where
  -- A control block is written back with its link, and `thread_yield` follows.
  pub yield-Keeps :
      (s s0 : System)
      → Keeps (HandlersStay b) s s0
      → Ensures (thread_yield b fuel s0) (Keeps (HandlersStay b) s)
  yield-Keeps s s0 k = Ensures-mono (λ s'. Keeps-trans k) (thread_yield-Keeps b fuel s0 handlers)

  put-yield-Keeps :
      (s : System) (p : ℕ) {t : Thread} (t' : Thread)
      → s.threads p ≡ some t
      → t'.runq_next ≡ t.runq_next
      → Ensures (thread_yield b fuel (put_thread s p t')) (Keeps (HandlersStay b) s)
  put-yield-Keeps s p t' at_p same =
      yield-Keeps s (put_thread s p t') (Keeps-update s _ p t' at_p same refl refl refl refl)

  pub tick_sleep-Keeps :
      (ticks : ℕ) (s : System) → Ensures (tick_sleep b fuel ticks s) (Keeps (HandlersStay b) s)
  unfolding tick_sleep sleeping
  tick_sleep-Keeps ticks s = Ensures-lookup (s.threads s.current_thread) λ this here.
      put-yield-Keeps s s.current_thread (sleeping s.global_thread_tick_counter ticks this) here
        refl

  pub thread_usleep-Keeps :
      (us : ℕ) (s : System) → Ensures (thread_usleep b fuel us s) (Keeps (HandlersStay b) s)
  unfolding thread_usleep
  thread_usleep-Keeps us s = Ensures-lookup (s.threads s.current_thread) λ this here.
      let this' = record this { status = slept } in
      Ensures-mono
        (λ s'. Keeps-trans (Keeps-update s _ s.current_thread this' here refl refl refl refl refl))
        (tick_sleep-Keeps (us / us_per_tick) (put_thread s s.current_thread this'))

  pub thread_block-Keeps : (s : System) → Ensures (thread_block b fuel s) (Keeps (HandlersStay b) s)
  unfolding thread_block
  thread_block-Keeps s = Ensures-lookup (s.threads s.current_thread) λ this here.
      Ensures-if (this.status == active)
        (put-yield-Keeps s s.current_thread (record this { status = blocked }) here refl)
        (Ensures-some (Keeps-refl s))

  pub thread_unblock-Keeps :
      (th : ℕ) (s : System) → Ensures (thread_unblock b fuel th s) (Keeps (HandlersStay b) s)
  unfolding thread_unblock
  thread_unblock-Keeps th s = Ensures-lookup (s.threads th) λ t at_th.
      Ensures-if (t.status == blocked)
        (put-yield-Keeps s th (record t { status = active }) at_th refl)
        (Ensures-some (Keeps-refl s))

  pub thread_signal-Keeps :
      (th : ℕ) (s : System)
      → Ensures (thread_signal b fuel th s) (λ r. Keeps (HandlersStay b) s r.1)
  unfolding thread_signal
  thread_signal-Keeps th s = Ensures-if (th == 0) (Ensures-some (Keeps-refl s)) (
      Ensures-lookup (s.threads th) λ t at_th.
        let t' = (arrival s.global_thread_tick_counter t).1 in
        let k : Keeps (HandlersStay b) s (put_thread s th t') =
          Keeps-update s _ th t' at_th (arrival_next s.global_thread_tick_counter t) refl refl refl
            refl in
        Ensures-bind (thread_unblock b fuel th (put_thread s th t'))
          (thread_unblock-Keeps th (put_thread s th t'))
          λ s' ran k'. Ensures-some (Keeps-trans k k'))

  pub thread_ats_signal-Keeps :
      (th : ℕ) (s : System)
      → Ensures (thread_ats_signal b fuel th s) (λ r. Keeps (HandlersStay b) s r.1)
  unfolding thread_ats_signal
  thread_ats_signal-Keeps th s = Ensures-lookup (s.threads th) λ t at_th.
      let t' = record t { ats_pending = add32 t.ats_pending 1 } in
      Ensures-bind (thread_yield b fuel (put_thread s th t')) (put-yield-Keeps s th t' at_th refl)
        λ s' ran k. Ensures-some k

  pub thread_ats_enable-Keeps :
      (s : System) → Ensures (thread_ats_enable b fuel s) (Keeps (HandlersStay b) s)
  unfolding thread_ats_enable
  thread_ats_enable-Keeps s = Ensures-lookup (s.threads s.current_thread) λ this here.
      Ensures-if (this.ats_active == 0)
        (put-yield-Keeps s s.current_thread (record this { ats_active = 1 }) here refl)
        (Ensures-some (Keeps-refl s))

  pub timer2_ovf-Keeps : (s : System) → Ensures (timer2_ovf b fuel s) (Keeps (HandlersStay b) s)
  unfolding timer2_ovf
  timer2_ovf-Keeps s =
      Ensures-if (add32 s.yield 1 == yield_max)
        (yield-Keeps s _ (keeps_queue (record { main = refl; head = refl; next = λ q. refl }) refl))
        (Ensures-some (keeps_queue (record { main = refl; head = refl; next = λ q. refl }) refl))

  pub thread_semaphore_p-Keeps :
      (sem : ℕ) (s : System) → Ensures (thread_semaphore_p b fuel sem s) (Keeps (HandlersStay b) s)
  unfolding thread_semaphore_p
  thread_semaphore_p-Keeps sem s = Ensures-if (sem == 0) (Ensures-some (Keeps-refl s)) (
      Ensures-lookup (s.semaphores sem) λ value at_sem.
        Ensures-if (sle16 value 0)
          (Ensures-lookup (s.threads s.current_thread) λ this here.
            put-yield-Keeps s s.current_thread
              (record this { blocked_semaphore = sem; status = sem_blocked }) here refl)
          (Ensures-some (keeps_queue (record { main = refl; head = refl; next = λ q. refl }) refl)))

  pub thread_semaphore_v-Keeps :
      (sem : ℕ) (s : System) → Ensures (thread_semaphore_v b fuel sem s) (Keeps (HandlersStay b) s)
  unfolding thread_semaphore_v
  thread_semaphore_v-Keeps sem s = Ensures-if (sem == 0) (Ensures-some (Keeps-refl s)) (
      Ensures-lookup (find_waiter fuel s sem s.thread_list 0) λ candidate found.
        Ensures-if (candidate == 0)
          (Ensures-lookup (s.semaphores sem) λ value at_sem.
            Ensures-some (keeps_queue (record { main = refl; head = refl; next = λ q. refl }) refl))
          (Ensures-lookup (s.threads candidate) λ t at_c.
            put-yield-Keeps s candidate (record t { status = active; blocked_semaphore = 0 }) at_c
              refl))
