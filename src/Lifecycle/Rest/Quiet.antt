-- ===== src/Lifecycle/Rest/Quiet.antt =====
-- Operations that end in no switch, on a thread that rests.
use ecp_c.Base.{
  ℕ, zero, suc, ◌≡◌, ◌≢◌, refl, sym, ap, ◌∙◌, inl, inr, Option, some, arith, Bool-cases, ◌==◌,
  ==→eq, ==→ne, Ensures, Ensures-bind, Ensures-lookup, Ensures-if, Ensures-some, Ensures-none,
}
use ecp_c.System.{Thread, System, put_thread}
use ecp_c.Scheduler.{charge}
use ecp_c.Threads.{get_current_cost_ticks, thread_ats_disable}
use ecp_c.Semaphore.{released, release_all, thread_semaphore_create, thread_semaphore_free}
use ecp_c.Remove.{find_previous, unlink, thread_remove}
use ecp_c.Lifecycle.Rest.{Same, Same-refl, Rests, Sits-frame, Sits-other, Sits-Same}
use ecp_c.Lifecycle.Rest.Yield.{found}

module _ {th : ℕ} {t0 : Thread} {n : ℕ} where
  -- The running thread writes a control block, not that of the thread that rests.
  pub put_other :
      (s : System) (p : ℕ) (t : Thread)
      → Rests th t0 n s
      → th ≢ p
      → Rests th t0 n (put_thread s p t)
  put_other s p t k ne = record {
    sits = Sits-other k.sits (put_thread s p t) refl refl p _ refl ne;
    off = k.off;
  }

  pub put-Same :
      (s : System) (p : ℕ) {t : Thread} (t' : Thread)
      → Rests th t0 n s
      → s.threads p ≡ some t
      → Same t t'
      → Rests th t0 n (put_thread s p t')
  put-Same s p t' k at_p same = record {
    sits = Sits-Same k.sits (put_thread s p t') refl refl p t' at_p same refl;
    off = k.off;
  }

  pub put_current :
      (s : System) (t : Thread) → Rests th t0 n s → Rests th t0 n (put_thread s s.current_thread t)
  put_current s t k = put_other s s.current_thread t k (λ e. k.off (sym e))

  pub thread_ats_disable-Rests :
      (s : System) → Rests th t0 n s → Ensures (thread_ats_disable s) (Rests th t0 n)
  unfolding thread_ats_disable
  thread_ats_disable-Rests s k = Ensures-lookup (s.threads s.current_thread) λ this here.
      Ensures-if (this.ats_active == 1) (Ensures-some (put_current s _ k)) (Ensures-some k)

  pub get_current_cost_ticks-Rests :
      (s : System) → Rests th t0 n s → Ensures (get_current_cost_ticks s) (λ r. Rests th t0 n r.1)
  unfolding get_current_cost_ticks
  get_current_cost_ticks-Rests s k = Ensures-lookup (s.threads s.current_thread) λ this here.
      let k' = put_current s (charge s this) k in
      Ensures-some (record { sits = Sits-frame k'.sits _ refl refl refl; off = k.off })

  pub semaphore_create-Rests :
      (at : Option ℕ) (value : ℕ) (s : System)
      → Rests th t0 n s
      → Ensures (thread_semaphore_create at value s) (λ r. Rests th t0 n r.1)
  unfolding thread_semaphore_create
  semaphore_create-Rests at value s k =
      Ensures-lookup at
        λ sem got. Ensures-some (record { sits = Sits-frame k.sits _ refl refl refl; off = k.off })

  release_all-Rests :
      (fuel : ℕ) (s : System) (sem p : ℕ)
      → sem ≢ t0.blocked_semaphore
      → Rests th t0 n s
      → Ensures (release_all fuel s sem p) (Rests th t0 n)
  unfolding release_all
  release_all-Rests zero s sem p ne k = Ensures-none
  release_all-Rests (suc fuel) s sem p ne k = Ensures-if (p == s.thread_main_inf) (Ensures-some k) (
      Ensures-lookup (s.threads p) λ t at_p.
        release_all-Rests fuel (put_thread s p (released sem t)) sem t.runq_next ne
          (elim (Bool-cases (th == p)) [
            | inr away ↦ put_other s p (released sem t) k (==→ne th p away)
            | inl here ↦
                let same = found k.sits (ap s.threads (==→eq th p here) ∙ at_p) in
                let waits : t.blocked_semaphore ≢ sem = λ e. ne (sym e ∙ same.semaphore) in
                let kept : released sem t ≡ t = ground arith in
                rw kept (put-Same s p t k at_p (Same-refl t))
          ]))

  pub thread_semaphore_free-Rests :
      (fuel sem : ℕ) (s : System)
      → sem ≢ t0.blocked_semaphore
      → Rests th t0 n s
      → Ensures (thread_semaphore_free fuel sem s) (Rests th t0 n)
  unfolding thread_semaphore_free
  thread_semaphore_free-Rests fuel sem s ne k = Ensures-if (sem == 0) (Ensures-some k) (
      Ensures-bind (release_all fuel s sem s.thread_list)
        (release_all-Rests fuel s sem s.thread_list ne k)
        λ s' ran k'.
          Ensures-some (record { sits = Sits-frame k'.sits _ refl refl refl; off = k'.off }))

  unlink-Rests :
      (s : System) (away previous : ℕ) (t : Thread)
      → Rests th t0 n s
      → Ensures (unlink s away previous t) (Rests th t0 n)
  unfolding unlink
  unlink-Rests s away previous t k =
      Ensures-if (away == s.thread_list)
        (Ensures-some (record { sits = Sits-frame k.sits _ refl refl refl; off = k.off }))
        (Ensures-lookup (s.threads previous) λ u here. Ensures-some (
          put-Same s previous _ k here
            (record { status = refl; semaphore = refl; until = refl; carry = refl })))

  pub thread_remove-Rests :
      (fuel away : ℕ) (s : System)
      → away ≢ th
      → Rests th t0 n s
      → Ensures (thread_remove fuel away s) (λ r. Rests th t0 n r.1)
  unfolding thread_remove
  thread_remove-Rests fuel away s ne k =
      Ensures-lookup (find_previous fuel s away s.thread_list s.thread_list) λ r found.
        Ensures-if (r.0 == s.thread_main_inf) (Ensures-some k) (
          Ensures-lookup (s.threads away) λ t here.
            Ensures-bind (unlink s away r.1 t) (unlink-Rests s away r.1 t k) λ s1 ran k1.
              Ensures-some (record {
                sits = Sits-frame k1.sits _ refl refl (ground (arith, ne));
                off = k1.off;
              }))
