-- ===== src/Lifecycle/Rest/Create.antt =====
-- Creation of threads, while a thread rests.
use ecp_c.Base.{
  ℕ, ◌≡◌, ◌≢◌, ◌⊎◌, refl, sym, some, ◌==◌, if◌then◌else◌, Option-cases, inl, inr, ==→ne, Ensures,
  Ensures-test, Ensures-bind, Ensures-lookup, Ensures-if, Ensures-some,
}
use ecp_c.System.{Thread, System, Board, put_thread}
use ecp_c.Create.{
  Mallocs, main_block, with_block, create_main, thread_create, periodic_thread_create,
  sporadic_thread_create, aperiodic_thread_create,
}
use ecp_c.Lifecycle.Create.{create_no_block, create_no_stack, create_with}
use ecp_c.Lifecycle.Rest.{Sits, Rests, HandlersSpare, Sits-frame, Sits-other, Sits-Same}
use ecp_c.Lifecycle.Rest.Yield.{thread_start-Rests}

-- What `malloc` returns is not the control block of the thread.
pub record Avoids (th : ℕ) (m : Mallocs) : Type 0 where
  pub block : (p : ℕ) (g : Thread) → m.block ≡ some (p, g) → p ≢ th
  pub main : (p : ℕ) (g : Thread) → m.main ≡ some (p, g) → p ≢ th

module _ {th : ℕ} {t0 : Thread} {n : ℕ} (b : Board) (spare : HandlersSpare b th) (fuel : ℕ)
    (m : Mallocs) (avoids : Avoids th m) (s : System) (k : Rests th t0 n s) where
  create_main-Rests :
      (s1 : System) → Rests th t0 n s1 → Ensures (create_main b fuel m.main s1) (Rests th t0 n)
  unfolding create_main
  create_main-Rests s1 k1 =
      Ensures-if (s1.thread_list == 0)
        (Ensures-lookup m.main λ r got.
          let (p, g) = r in
          let ne : p ≢ th = avoids.main p g got in
          let k2 : Sits th t0 n (put_thread s1 p (main_block b g)) =
            Sits-other k1.sits _ refl refl p _ refl (λ e. ne (sym e)) in
          let k3 : Sits th t0 n (record (put_thread s1 p (main_block b g)) {
            thread_main_inf = p;
            thread_list = p;
            current_thread = p;
          }) =
            record { block = k2.block; idle = k2.idle; not_main = ne; time = k2.time } in
          thread_start-Rests b spare fuel _ p k3 ne)
        (Ensures-some k1)

  module _ (entry stack stack_size priority parm : ℕ) where
    -- The result is NULL or another thread.
    pub thread_create-Rests :
        Ensures
          (thread_create b fuel m entry stack stack_size priority parm s)
          (λ r. Rests th t0 n r.1 × ((r.0 ≡ 0) ⊎ (r.0 ≢ th)))
    thread_create-Rests = elim (Option-cases m.block) [
      | inl none_left ↦
          rw (create_no_block b fuel m entry stack stack_size priority parm s none_left)
            (Ensures-some (k, inl refl))
      | inr ((p, g), got) ↦ elim (Option-cases (if stack == 0 then m.stack else some stack)) [
        | inl no_stack ↦
            rw (create_no_stack b fuel m entry stack stack_size priority parm s got no_stack) (
              Ensures-some
                (record { sits = Sits-frame k.sits _ refl refl refl; off = k.off }, inl refl))
        | inr (stack', at_stack) ↦
            let ne : th ≢ p = (λ e. avoids.block p g got (sym e)) in
            rw (create_with b fuel m entry stack stack_size priority parm s p g stack' got at_stack)
              (Ensures-bind
                (create_main b fuel m.main (with_block s p entry stack' stack_size priority parm g))
                (create_main-Rests _
                  (record { sits = Sits-other k.sits _ refl refl p _ refl ne; off = k.off }))
                λ s2 ran k2. Ensures-lookup (s2.threads p) λ t at_p. Ensures-some (
                  record { sits = Sits-other k2.sits _ refl refl p _ refl ne; off = k2.off },
                  inr (avoids.block p g got),
                ))
      ]
    ]

  pub periodic_thread_create-Rests :
      (entry params_and_data stack stack_size priority offset_us period_us max_deadline_us
        max_cost_us error_handler : ℕ)
      → Ensures
          (periodic_thread_create b fuel m entry params_and_data stack stack_size priority offset_us
            period_us max_deadline_us max_cost_us error_handler s)
          (λ r. Rests th t0 n r.1)
  unfolding periodic_thread_create
  periodic_thread_create-Rests entry params_and_data stack stack_size priority offset_us period_us
        max_deadline_us max_cost_us error_handler =
      Ensures-bind (thread_create b fuel m b.periodic_pattern stack stack_size priority 0 s)
        (thread_create-Rests b.periodic_pattern stack stack_size priority 0)
        λ r ran k1.
          Ensures-test (r.0 == 0) (λ e. Ensures-some k1.0)
            (λ made.
              let other : th ≢ r.0 = elim k1.1 [
                | inl e ↦ absurd (==→ne r.0 0 made e)
                | inr ne ↦ (λ e. ne (sym e))
              ] in
              Ensures-lookup (r.1.threads r.0) λ t at_p. Ensures-some (record {
                sits = Sits-other k1.0.sits _ refl refl r.0 _ refl other;
                off = k1.0.off;
              }))

  pub sporadic_thread_create-Rests :
      (entry params_and_data stack stack_size priority offset_us mit_period_us max_deadline_us
        max_cost_us mit_policy queue_length_max error_handler : ℕ)
      → Ensures
          (sporadic_thread_create b fuel m entry params_and_data stack stack_size priority offset_us
            mit_period_us max_deadline_us max_cost_us mit_policy queue_length_max error_handler s)
          (λ r. Rests th t0 n r.1)
  unfolding sporadic_thread_create
  sporadic_thread_create-Rests entry params_and_data stack stack_size priority offset_us
        mit_period_us max_deadline_us max_cost_us mit_policy queue_length_max error_handler =
      Ensures-bind
        (periodic_thread_create b fuel m entry params_and_data stack stack_size priority offset_us
          mit_period_us max_deadline_us max_cost_us error_handler s)
        (periodic_thread_create-Rests entry params_and_data stack stack_size priority offset_us
          mit_period_us max_deadline_us max_cost_us error_handler)
        λ r ran k1. Ensures-if (r.0 == 0) (Ensures-some k1) (
          Ensures-lookup (r.1.threads r.0) λ t at_p. Ensures-some (record {
            sits =
                Sits-Same k1.sits _ refl refl r.0 _ at_p
                  (record { status = refl; semaphore = refl; until = refl; carry = refl }) refl;
            off = k1.off;
          }))

  pub aperiodic_thread_create-Rests :
      (entry params_and_data stack stack_size priority offset_us max_deadline_us max_cost_us
        ov_policy queue_length_max error_handler : ℕ)
      → Ensures
          (aperiodic_thread_create b fuel m entry params_and_data stack stack_size priority
            offset_us max_deadline_us max_cost_us ov_policy queue_length_max error_handler s)
          (λ r. Rests th t0 n r.1)
  unfolding aperiodic_thread_create
  aperiodic_thread_create-Rests entry params_and_data stack stack_size priority offset_us
        max_deadline_us max_cost_us ov_policy queue_length_max error_handler =
      Ensures-bind
        (sporadic_thread_create b fuel m entry params_and_data stack stack_size priority offset_us 0
          max_deadline_us max_cost_us ov_policy queue_length_max error_handler s)
        (sporadic_thread_create-Rests entry params_and_data stack stack_size priority offset_us 0
          max_deadline_us max_cost_us ov_policy queue_length_max error_handler)
        λ r ran k1. Ensures-lookup (r.1.threads r.0) λ t at_p. Ensures-some (record {
          sits =
              Sits-Same k1.sits _ refl refl r.0 _ at_p
                (record { status = refl; semaphore = refl; until = refl; carry = refl }) refl;
          off = k1.off;
        })
