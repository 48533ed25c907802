-- ===== src/Kernel2/Period/Create.antt =====
-- Creation of threads leaves the period of the others.
use ecp_c.Base.{
  ℕ, ◌≡◌, ◌≢◌, ◌⊎◌, refl, sym, ◌∷◌, some, none, arith, ◌==◌, ==→ne, false, if◌then◌else◌, ◌>>=◌,
  Option-cases, inl, inr, Ensures, Ensures-test, Ensures-bind, Ensures-lookup, Ensures-if,
  Ensures-some,
}
use ecp_c.System.{Board}
use ecp_c.Kernel2.State.{Thread, System, Upcalls, put_thread, cli, sei}
use ecp_c.Kernel2.Create.{
  Mallocs, main_block, with_block, link, create_main, create_with, thread_create,
  periodic_thread_create, sporadic_thread_create, aperiodic_thread_create,
}
use ecp_c.Kernel2.Period.{IsPeriodic, Periodic-other, Periodic-same}
use ecp_c.Kernel2.Period.Yield.{thread_start-Periodic}

-- What `malloc` returns is not the control block of the thread.
pub record Avoids (th : ℕ) (m : Mallocs) : Type 0 where
  pub block : (p : ℕ) (g : Thread) → m.block ≡ some (p, g) → p ≢ th
  pub main : (p : ℕ) (g : Thread) → m.main ≡ some (p, g) → p ≢ th

module _ {th period : ℕ} (b : Board) (m : Mallocs) (avoids : Avoids th m) (s : System)
    (k : IsPeriodic th period s) where
  -- The result is NULL or another thread.
  abbrev pub Made : ℕ × System → Type 0
  Made r = IsPeriodic th period r.1 × ((r.0 ≡ 0) ⊎ (r.0 ≢ th))

  create_main-Periodic :
      (s1 : System)
      → IsPeriodic th period s1
      → Ensures (create_main main_block b m.main s1) (IsPeriodic th period)
  unfolding create_main
  create_main-Periodic s1 k1 =
      Ensures-if (s1.thread_list == 0)
        (Ensures-lookup m.main λ r got.
          let (p, g) = r in
          thread_start-Periodic b _ p
            (Periodic-other k1 p (some (main_block g)) (λ e. avoids.main p g got (sym e))))
        (Ensures-some k1)

  link-Periodic :
      (p : ℕ) (s1 : System)
      → p ≢ th
      → IsPeriodic th period s1
      → Ensures (link p s1) (IsPeriodic th period)
  unfolding link
  link-Periodic p s1 ne k1 = Ensures-lookup (s1.threads p) λ t at_p.
      let s2 = put_thread s1 p (record t { runq_next = s1.thread_list }) in
      let k2 : IsPeriodic th period s2 = Periodic-other k1 p _ (λ e. ne (sym e)) in
      Ensures-lookup (s2.threads s1.thread_list)
        λ head at_head. Ensures-some (Periodic-same k2 s1.thread_list _ at_head refl)

  module _ (entry stack stack_size priority parm : ℕ) where
    create_no_block :
        m.block ≡ none
        → thread_create b m entry stack stack_size priority parm s ≡ some (0, sei (cli s))
    unfolding thread_create create_with
    create_no_block got = ground arith

    create_no_stack :
        {p : ℕ} {g : Thread}
        → m.block ≡ some (p, g)
        → (if stack == 0 then m.stack else some stack) ≡ none
        → thread_create b m entry stack stack_size priority parm s
          ≡ some (0, record (sei (cli s)) { freed = p ∷ s.freed })
    unfolding thread_create create_with
    create_no_stack got at_stack = ground arith

    create_linked :
        (p : ℕ) (g : Thread) (stack' : ℕ)
        → m.block ≡ some (p, g)
        → (if stack == 0 then m.stack else some stack) ≡ some stack'
        → thread_create b m entry stack stack_size priority parm s ≡ (
            create_main main_block b m.main
              (with_block (sei (cli s)) p entry stack' stack_size priority parm g)
            >>= λ s2. link p s2 >>= λ s3. some (p, s3))
    unfolding thread_create create_with
    create_linked p g stack' got at_stack = ground arith

    pub thread_create-Periodic :
        Ensures (thread_create b m entry stack stack_size priority parm s) Made
    thread_create-Periodic = elim (Option-cases m.block) [
      | inl none_left ↦ rw (create_no_block none_left) (Ensures-some (k, inl refl))
      | inr ((p, g), got) ↦ elim (Option-cases (if stack == 0 then m.stack else some stack)) [
        | inl no_stack ↦ rw (create_no_stack got no_stack) (Ensures-some (k, inl refl))
        | inr (stack', at_stack) ↦
            let ne : p ≢ th = avoids.block p g got in
            rw (create_linked p g stack' got at_stack) (
              Ensures-bind _
                (create_main-Periodic
                  (with_block (sei (cli s)) p entry stack' stack_size priority parm g)
                  (Periodic-other k p _ (λ e. ne (sym e))))
                λ s2 ran k2.
                  Ensures-bind (link p s2) (link-Periodic p s2 ne k2)
                    λ s3 linked k3. Ensures-some (k3, inr ne))
      ]
    ]

  -- The control block that was made is written back.
  put-Made :
      (r : ℕ × System) (t : Thread)
      → Made r
      → (r.0 == 0) ≡ false
      → Ensures (some (r.0, put_thread r.1 r.0 t)) Made
  put-Made r t made some_block =
      let other : r.0 ≢ th = elim made.1 [
        | inl e ↦ absurd (==→ne r.0 0 some_block e)
        | inr ne ↦ ne
      ] in
      Ensures-some (Periodic-other made.0 r.0 _ (λ e. other (sym e)), inr other)

  module _ (u : Upcalls) where
    pub periodic_thread_create-Periodic :
        (entry stack stack_size priority offset_us period_us max_deadline_us max_cost_us
          error_handler : ℕ)
        → Ensures
            (periodic_thread_create b u m entry stack stack_size priority offset_us period_us
              max_deadline_us max_cost_us error_handler s)
            Made
    unfolding periodic_thread_create
    periodic_thread_create-Periodic entry stack stack_size priority offset_us period_us
          max_deadline_us max_cost_us error_handler =
        Ensures-bind (thread_create b m u.periodic_pattern stack stack_size priority 0 s)
          (thread_create-Periodic u.periodic_pattern stack stack_size priority 0)
          λ r ran made.
            Ensures-test (r.0 == 0) (λ e. Ensures-some (made.0, inl refl))
              (λ e. Ensures-lookup (r.1.threads r.0) λ t at_p. put-Made r _ made e)

    pub sporadic_thread_create-Periodic :
        (entry stack stack_size priority offset_us mit_period_us max_deadline_us max_cost_us
          error_handler : ℕ)
        → Ensures
            (sporadic_thread_create b u m entry stack stack_size priority offset_us mit_period_us
              max_deadline_us max_cost_us error_handler s)
            Made
    unfolding sporadic_thread_create
    sporadic_thread_create-Periodic entry stack stack_size priority offset_us mit_period_us
          max_deadline_us max_cost_us error_handler =
        Ensures-bind
          (periodic_thread_create b u m entry stack stack_size priority offset_us mit_period_us
            max_deadline_us max_cost_us error_handler s)
          (periodic_thread_create-Periodic entry stack stack_size priority offset_us mit_period_us
            max_deadline_us max_cost_us error_handler)
          λ r ran made.
            Ensures-test (r.0 == 0) (λ e. Ensures-some (made.0, inl refl))
              (λ e. Ensures-lookup (r.1.threads r.0) λ t at_p. put-Made r _ made e)

    pub aperiodic_thread_create-Periodic :
        (entry stack stack_size priority offset_us max_deadline_us max_cost_us error_handler : ℕ)
        → Ensures
            (aperiodic_thread_create b u m entry stack stack_size priority offset_us max_deadline_us
              max_cost_us error_handler s)
            Made
    unfolding aperiodic_thread_create
    aperiodic_thread_create-Periodic entry stack stack_size priority offset_us max_deadline_us
          max_cost_us error_handler =
        sporadic_thread_create-Periodic entry stack stack_size priority offset_us 0 max_deadline_us
          max_cost_us error_handler
