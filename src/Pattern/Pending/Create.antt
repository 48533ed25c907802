-- ===== src/Pattern/Pending/Create.antt =====
-- Creation of threads leaves the pending releases of the others.
use ecp_c.Base.{
  ℕ, ◌≡◌, ◌≢◌, ◌⊎◌, refl, sym, ◌∙◌, some, ◌==◌, if◌then◌else◌, Option-cases, inl, inr, ==→ne, false,
  Ensures, Ensures-test, Ensures-bind, Ensures-lookup, Ensures-if, Ensures-some,
}
use ecp_c.System.{Thread, System, Board, put_thread}
use ecp_c.Create.{
  Mallocs, main_block, with_block, create_main, thread_create, periodic_thread_create,
  sporadic_thread_create, aperiodic_thread_create,
}
use ecp_c.Lifecycle.Create.{create_no_block, create_no_stack, create_with}
use ecp_c.Lifecycle.Rest.Create.{Avoids}
use ecp_c.Pattern.Pending.{HasPending, HandlersLeave, Pending-other}
use ecp_c.Pattern.Pending.Yield.{thread_start-Pending}

module _ {th low high : ℕ} (b : Board) (leave : HandlersLeave b th) (fuel : ℕ) (m : Mallocs)
    (avoids : Avoids th m) (s : System) (k : HasPending th low high s) where
  -- The result is NULL or another thread.
  abbrev pub Made : ℕ × System → Type 0
  Made r = HasPending th low high r.1 × ((r.0 ≡ 0) ⊎ (r.0 ≢ th))

  create_main-Pending :
      (s1 : System)
      → HasPending th low high s1
      → Ensures (create_main b fuel m.main s1) (HasPending th low high)
  unfolding create_main
  create_main-Pending s1 k1 =
      Ensures-if (s1.thread_list == 0)
        (Ensures-lookup m.main λ r got.
          let (p, g) = r in
          thread_start-Pending b leave fuel _ p
            (Pending-other k1 p (some (main_block b g)) (λ e. avoids.main p g got (sym e))))
        (Ensures-some k1)

  pub thread_create-Pending :
      (entry stack stack_size priority parm : ℕ)
      → Ensures (thread_create b fuel m entry stack stack_size priority parm s) Made
  thread_create-Pending entry stack stack_size priority parm = elim (Option-cases m.block) [
    | inl none_left ↦
        rw (create_no_block b fuel m entry stack stack_size priority parm s none_left)
          (Ensures-some (k, inl refl))
    | inr ((p, g), got) ↦ elim (Option-cases (if stack == 0 then m.stack else some stack)) [
      | inl no_stack ↦
          rw (create_no_stack b fuel m entry stack stack_size priority parm s got no_stack)
            (Ensures-some (k, inl refl))
      | inr (stack', at_stack) ↦
          let ne : th ≢ p = (λ e. avoids.block p g got (sym e)) in
          rw (create_with b fuel m entry stack stack_size priority parm s p g stack' got at_stack) (
            Ensures-bind
              (create_main b fuel m.main (with_block s p entry stack' stack_size priority parm g))
              (create_main-Pending _ (Pending-other k p _ ne))
              λ s2 ran k2.
                Ensures-lookup (s2.threads p)
                  λ t at_p. Ensures-some (Pending-other k2 p _ ne, inr (avoids.block p g got)))
    ]
  ]

  another : (r : ℕ × System) → Made r → (r.0 == 0) ≡ false → r.0 ≢ th
  another r made some_block = elim made.1 [
    | inl e ↦ absurd (==→ne r.0 0 some_block e)
    | inr ne ↦ ne
  ]

  -- The control block that was made is written back.
  put-Made :
      (r : ℕ × System) (t : Thread)
      → Made r
      → r.0 ≢ th
      → Ensures (some (r.0, put_thread r.1 r.0 t)) Made
  put-Made r t made other =
      Ensures-some (Pending-other made.0 r.0 _ (λ e. other (sym e)), inr other)

  pub periodic_thread_create-Pending :
      (entry params_and_data stack stack_size priority offset_us period_us max_deadline_us
        max_cost_us error_handler : ℕ)
      → Ensures
          (periodic_thread_create b fuel m entry params_and_data stack stack_size priority offset_us
            period_us max_deadline_us max_cost_us error_handler s)
          Made
  unfolding periodic_thread_create
  periodic_thread_create-Pending entry params_and_data stack stack_size priority offset_us period_us
        max_deadline_us max_cost_us error_handler =
      Ensures-bind (thread_create b fuel m b.periodic_pattern stack stack_size priority 0 s)
        (thread_create-Pending b.periodic_pattern stack stack_size priority 0)
        λ r ran made.
          Ensures-test (r.0 == 0) (λ e. Ensures-some (made.0, inl refl))
            (λ e. Ensures-lookup (r.1.threads r.0) λ t at_p. put-Made r _ made (another r made e))

  pub sporadic_thread_create-Pending :
      (entry params_and_data stack stack_size priority offset_us mit_period_us max_deadline_us
        max_cost_us mit_policy queue_length_max error_handler : ℕ)
      → Ensures
          (sporadic_thread_create b fuel m entry params_and_data stack stack_size priority offset_us
            mit_period_us max_deadline_us max_cost_us mit_policy queue_length_max error_handler s)
          Made
  unfolding sporadic_thread_create
  sporadic_thread_create-Pending entry params_and_data stack stack_size priority offset_us
        mit_period_us max_deadline_us max_cost_us mit_policy queue_length_max error_handler =
      Ensures-bind
        (periodic_thread_create b fuel m entry params_and_data stack stack_size priority offset_us
          mit_period_us max_deadline_us max_cost_us error_handler s)
        (periodic_thread_create-Pending entry params_and_data stack stack_size priority offset_us
          mit_period_us max_deadline_us max_cost_us error_handler)
        λ r ran made.
          Ensures-test (r.0 == 0) (λ e. Ensures-some (made.0, inl refl))
            (λ e. Ensures-lookup (r.1.threads r.0) λ t at_p. put-Made r _ made (another r made e))

  -- The creation of an aperiodic thread writes to the control block at NULL, if there is no memory.
  pub aperiodic_thread_create-Pending :
      (entry params_and_data stack stack_size priority offset_us max_deadline_us max_cost_us
        ov_policy queue_length_max error_handler : ℕ)
      → th ≢ 0
      → Ensures
          (aperiodic_thread_create b fuel m entry params_and_data stack stack_size priority
            offset_us max_deadline_us max_cost_us ov_policy queue_length_max error_handler s)
          Made
  unfolding aperiodic_thread_create
  aperiodic_thread_create-Pending entry params_and_data stack stack_size priority offset_us
        max_deadline_us max_cost_us ov_policy queue_length_max error_handler null =
      Ensures-bind
        (sporadic_thread_create b fuel m entry params_and_data stack stack_size priority offset_us 0
          max_deadline_us max_cost_us ov_policy queue_length_max error_handler s)
        (sporadic_thread_create-Pending entry params_and_data stack stack_size priority offset_us 0
          max_deadline_us max_cost_us ov_policy queue_length_max error_handler)
        λ r ran made. Ensures-lookup (r.1.threads r.0) λ t at_p.
          put-Made r _ made (elim made.1 [ inl e ↦ (λ d. null (sym d ∙ e)) | inr ne ↦ ne ])
