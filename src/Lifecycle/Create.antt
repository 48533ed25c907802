-- ===== src/Lifecycle/Create.antt =====
-- Creation keeps the run queue well-formed, and puts the new thread at its head.
use ecp_c.Base.{
  ℕ, ◌≡◌, ◌≢◌, refl, List, ◌∷◌, Option, some, none, arith, ◌==◌, if◌then◌else◌, ◌>>=◌, Ensures,
  Ensures-bind, Ensures-lookup, Ensures-if, Ensures-some,
}
use ecp_c.System.{Thread, System, Board, put_thread}
use ecp_c.Scheduler.Kept.{keeps_update}
use ecp_c.Create.{
  Mallocs, new_block, with_block, create_main, thread_create, periodic_thread_create,
  sporadic_thread_create, aperiodic_thread_create,
}
use ecp_c.Lifecycle.Queue.{
  HasQueue, keeps-HasQueue, Placed, head_ne, created, IsFresh, linked-HasQueue,
}

-- A control block that is written back with its link keeps the queue well-formed.
put-Placed :
    {s s1 : System} {ys : List ℕ} (p : ℕ) {t : Thread} (t' : Thread)
    → s1.threads p ≡ some t
    → t'.runq_next ≡ t.runq_next
    → Placed s ys s1
    → Placed s ys (put_thread s1 p t')
put-Placed {s1 = s1} p t' at_p same k = record {
  queue =
      keeps-HasQueue (keeps_update s1 (put_thread s1 p t') p t' at_p same refl refl refl) k.queue;
  main = k.main;
  current = k.current;
}

module _ (b : Board) (fuel : ℕ) (m : Mallocs) (entry stack stack_size priority parm : ℕ)
    (s : System) where
  pub create_no_block :
      m.block ≡ none → thread_create b fuel m entry stack stack_size priority parm s ≡ some (0, s)
  unfolding thread_create
  create_no_block got = ground arith

  pub create_no_stack :
      {th : ℕ} {g : Thread}
      → m.block ≡ some (th, g)
      → (if stack == 0 then m.stack else some stack) ≡ none
      → thread_create b fuel m entry stack stack_size priority parm s
        ≡ some (0, record s { freed = th ∷ s.freed })
  unfolding thread_create
  create_no_stack got at_stack = ground arith

  pub create_with :
      (p : ℕ) (g : Thread) (stack' : ℕ)
      → m.block ≡ some (p, g)
      → (if stack == 0 then m.stack else some stack) ≡ some stack'
      → thread_create b fuel m entry stack stack_size priority parm s ≡ (
          create_main b fuel m.main (with_block s p entry stack' stack_size priority parm g)
          >>= λ s2. s2.threads p >>= λ t. some (
            p,
            record (put_thread s2 p (record t { runq_next = s2.thread_list })) { thread_list = p },
          ))
  unfolding thread_create
  create_with p g stack' got at_stack = ground arith

  module _ (th : ℕ) (g : Thread) (stack' : ℕ) where
    abbrev linked : Thread
    linked = record (new_block entry stack' stack_size priority parm s.cpu.ram g) {
      runq_next = s.thread_list;
    }

    abbrev after : System
    after =
        record (put_thread (with_block s th entry stack' stack_size priority parm g) th linked) {
          thread_list = th;
        }

    create_linked :
        s.thread_list ≢ 0
        → m.block ≡ some (th, g)
        → (if stack == 0 then m.stack else some stack) ≡ some stack'
        → thread_create b fuel m entry stack stack_size priority parm s ≡ some (th, after)
    unfolding thread_create create_main
    create_linked ne got at_stack = ground arith

  module _ (xs : List ℕ) (h : HasQueue s xs) where
    -- `stack'` is the stack that is handed in, or else what `malloc` returned for it.
    create_from :
        (block : Option (ℕ × Thread)) (stack' : Option ℕ)
        → m.block ≡ block
        → (if stack == 0 then m.stack else some stack) ≡ stack'
        → IsFresh s block
        → Ensures
            (thread_create b fuel m entry stack stack_size priority parm s)
            (λ r. Placed s (created block stack' xs) r.1)
    create_from none stack' got at_stack fresh =
        rw (create_no_block got) (Ensures-some (record { queue = h; main = refl; current = refl }))
    create_from (some (th, g)) none got at_stack fresh = rw (create_no_stack got at_stack) (
        Ensures-some (record {
          queue = record {
            chain = h.chain;
            distinct = h.distinct;
            main_last = h.main_last;
            main_ne = h.main_ne;
          };
          main = refl;
          current = refl;
        }))
    create_from (some (th, g)) (some stack') got at_stack fresh =
        rw (create_linked th g stack' (head_ne s xs h) got at_stack) (
          Ensures-some (record {
            queue =
                linked-HasQueue s xs h th (fresh th g refl).0 (fresh th g refl).1
                  (after th g stack') (linked th g stack') (ground arith) refl
                  (λ q ne. ground arith) refl refl;
            main = refl;
            current = refl;
          }))

-- The run queue after a creation with what `malloc` returns and a stack, or none, handed in.
abbrev pub queue_created : Mallocs → ℕ → List ℕ → List ℕ
queue_created m stack xs = created m.block (if stack == 0 then m.stack else some stack) xs

module _ (b : Board) (fuel : ℕ) (m : Mallocs) (s : System) (xs : List ℕ) (h : HasQueue s xs)
    (fresh : IsFresh s m.block) where
  pub thread_create-Placed :
      (entry stack stack_size priority parm : ℕ)
      → Ensures
          (thread_create b fuel m entry stack stack_size priority parm s)
          (λ r. Placed s (queue_created m stack xs) r.1)
  thread_create-Placed entry stack stack_size priority parm =
      create_from b fuel m entry stack stack_size priority parm s xs h m.block _ refl refl fresh

  pub periodic_thread_create-Placed :
      (entry params_and_data stack stack_size priority offset_us period_us max_deadline_us
        max_cost_us error_handler : ℕ)
      → Ensures
          (periodic_thread_create b fuel m entry params_and_data stack stack_size priority offset_us
            period_us max_deadline_us max_cost_us error_handler s)
          (λ r. Placed s (queue_created m stack xs) r.1)
  unfolding periodic_thread_create
  periodic_thread_create-Placed entry params_and_data stack stack_size priority offset_us period_us
        max_deadline_us max_cost_us error_handler =
      Ensures-bind (thread_create b fuel m b.periodic_pattern stack stack_size priority 0 s)
        (thread_create-Placed b.periodic_pattern stack stack_size priority 0)
        λ r ran k.
          Ensures-if (r.0 == 0) (Ensures-some k) (
            Ensures-lookup (r.1.threads r.0)
              λ t at_th. Ensures-some (put-Placed r.0 _ at_th refl k))

  pub sporadic_thread_create-Placed :
      (entry params_and_data stack stack_size priority offset_us mit_period_us max_deadline_us
        max_cost_us mit_policy queue_length_max error_handler : ℕ)
      → Ensures
          (sporadic_thread_create b fuel m entry params_and_data stack stack_size priority offset_us
            mit_period_us max_deadline_us max_cost_us mit_policy queue_length_max error_handler s)
          (λ r. Placed s (queue_created m stack xs) r.1)
  unfolding sporadic_thread_create
  sporadic_thread_create-Placed entry params_and_data stack stack_size priority offset_us
        mit_period_us max_deadline_us max_cost_us mit_policy queue_length_max error_handler =
      Ensures-bind
        (periodic_thread_create b fuel m entry params_and_data stack stack_size priority offset_us
          mit_period_us max_deadline_us max_cost_us error_handler s)
        (periodic_thread_create-Placed entry params_and_data stack stack_size priority offset_us
          mit_period_us max_deadline_us max_cost_us error_handler)
        λ r ran k.
          Ensures-if (r.0 == 0) (Ensures-some k) (
            Ensures-lookup (r.1.threads r.0)
              λ t at_th. Ensures-some (put-Placed r.0 _ at_th refl k))

  pub aperiodic_thread_create-Placed :
      (entry params_and_data stack stack_size priority offset_us max_deadline_us max_cost_us
        ov_policy queue_length_max error_handler : ℕ)
      → Ensures
          (aperiodic_thread_create b fuel m entry params_and_data stack stack_size priority
            offset_us max_deadline_us max_cost_us ov_policy queue_length_max error_handler s)
          (λ r. Placed s (queue_created m stack xs) r.1)
  unfolding aperiodic_thread_create
  aperiodic_thread_create-Placed entry params_and_data stack stack_size priority offset_us
        max_deadline_us max_cost_us ov_policy queue_length_max error_handler =
      Ensures-bind
        (sporadic_thread_create b fuel m entry params_and_data stack stack_size priority offset_us 0
          max_deadline_us max_cost_us ov_policy queue_length_max error_handler s)
        (sporadic_thread_create-Placed entry params_and_data stack stack_size priority offset_us 0
          max_deadline_us max_cost_us ov_policy queue_length_max error_handler)
        λ r ran k.
          Ensures-lookup (r.1.threads r.0) λ t at_th. Ensures-some (put-Placed r.0 _ at_th refl k)
