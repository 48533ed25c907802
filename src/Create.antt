-- ===== src/Create.antt =====
-- Creation of threads in arduino/libraries/rtthreads/rtthreads.cpp. What `malloc` returns, and what
-- its blocks hold, are arguments; the pointer 0 is NULL.
pub mod First
pub mod Exhausted
use ecp_c.Base.{
  ℕ, ◌+◌, ◌-◌, ◌*◌, ◌/◌, ◌%◌, ◌∷◌, Option, some, none, ◌==◌, if◌then◌else◌, ◌>>=◌, u16,
}
use ecp_c.System.{Thread, Cpu, System, Board, active, norm_prio, us_per_tick, update, put_thread}
use ecp_c.Scheduler.{thread_start}

-- The results of the three calls of `malloc` in `thread_create`, in the order of the source: a
-- control block with what it holds, a stack, and the control block of main.
pub record Mallocs : Type 0 where
  pub block : Option (ℕ × Thread)
  pub stack : Option ℕ
  pub main : Option (ℕ × Thread)

-- `*sp-- = v`.
abbrev pub push_initial : ℕ → ℕ × (ℕ → ℕ) → ℕ × (ℕ → ℕ)
push_initial v (sp, ram) = (u16 (sp + 0xffff), update ram sp v)

-- The six bytes at the top of a new stack, and the stack pointer below them.
unfoldable pub initial_stack : ℕ → ℕ → ℕ → (ℕ → ℕ) → ℕ × (ℕ → ℕ)
initial_stack entry stack stack_size ram = push_initial (entry / 256 % 256) (
    push_initial (entry % 256) (
      push_initial 0x23 (
        push_initial 0x22
          (push_initial 0x11 (push_initial 0x00 (u16 (stack + stack_size + 0xffff), ram))))))

-- The control block of main, over the block `g`; its status is left as `malloc` gave it.
abbrev pub main_block : Board → Thread → Thread
main_block b g = record g {
  priority = norm_prio;
  parm = 0;
  max_cost_ticks = 0xffff_ffff;
  stack = u16 (b.ramend + 0x1_0000 - 300);
  stack_size = 300;
  blocked_semaphore = 0;
  current_cost_ticks = 0;
  runq_next = 0;
  ats_active = 0;
  ats_pending = 0;
  ats_max = 0;
}

-- The control block and the stack of a new thread, before it is linked.
abbrev pub new_block : ℕ → ℕ → ℕ → ℕ → ℕ → (ℕ → ℕ) → Thread → Thread
new_block entry stack stack_size priority parm ram g = record g {
  priority = priority;
  parm = parm;
  status = active;
  stack = stack;
  stack_size = stack_size;
  sp = (initial_stack entry stack stack_size ram).0;
  aux1 = 0;
  aux2 = 0;
}

abbrev pub with_block : System → ℕ → ℕ → ℕ → ℕ → ℕ → ℕ → Thread → System
with_block s th entry stack stack_size priority parm g =
    put_thread
      (record s { cpu = record s.cpu { ram = (initial_stack entry stack stack_size s.cpu.ram).1 } })
      th (new_block entry stack stack_size priority parm s.cpu.ram g)

module _ (b : Board) (fuel : ℕ) where
  -- The first thread brings the control block of main with it, and a first switch, to main itself.
  unfoldable pub create_main : Option (ℕ × Thread) → System → Option System
  create_main main s =
      if s.thread_list == 0
      then (do
        (p, g) ← main
        thread_start b fuel
            (record (put_thread s p (main_block b g)) {
              thread_main_inf = p;
              thread_list = p;
              current_thread = p;
            })
            p)
      else some s

  -- The thread, and the state.
  unfoldable pub thread_create :
      Mallocs → (entry stack stack_size priority parm : ℕ) → System → Option (ℕ × System)
  thread_create m entry stack stack_size priority parm s = elim m.block [
    | none ↦ some (0, s)
    | some (th, g) ↦ elim (if stack == 0 then m.stack else some stack) [
      | none ↦ some (0, record s { freed = th ∷ s.freed })
      | some stack' ↦ (do
        s2 ← create_main m.main (with_block s th entry stack' stack_size priority parm g)
        t ← s2.threads th
        some (
          th,
          record (put_thread s2 th (record t { runq_next = s2.thread_list })) { thread_list = th },
        ))
    ]
  ]

  unfoldable pub periodic_thread_create :
      Mallocs
      → (entry params_and_data stack stack_size priority offset_us period_us max_deadline_us
          max_cost_us error_handler : ℕ)
      → System
      → Option (ℕ × System)
  periodic_thread_create m entry params_and_data stack stack_size priority offset_us period_us
        max_deadline_us max_cost_us error_handler s =
      do
        (th, s1) ← thread_create m b.periodic_pattern stack stack_size priority 0 s
        if th == 0 then some (0, s1) else (do
          t ← s1.threads th
          some (
            th,
            put_thread s1 th (record t {
              executor = entry;
              params_and_data = params_and_data;
              error_handler = error_handler;
              offset_ticks = offset_us / us_per_tick;
              min_period_ticks = period_us / us_per_tick;
              max_cost_ticks = max_cost_us / us_per_tick;
              max_deadline_ticks = max_deadline_us / us_per_tick;
              block_pattern = 0x00;
              ats_active = 0;
              ats_pending = 0;
              ats_max = 0;
              blocked_semaphore = 0;
            }),
          ))

  unfoldable pub sporadic_thread_create :
      Mallocs
      → (entry params_and_data stack stack_size priority offset_us mit_period_us max_deadline_us
          max_cost_us mit_policy queue_length_max error_handler : ℕ)
      → System
      → Option (ℕ × System)
  sporadic_thread_create m entry params_and_data stack stack_size priority offset_us mit_period_us
        max_deadline_us max_cost_us mit_policy queue_length_max error_handler s =
      do
        (th, s1) ←
            periodic_thread_create m entry params_and_data stack stack_size priority offset_us
              mit_period_us max_deadline_us max_cost_us error_handler s
        if th == 0 then some (0, s1) else (do
          t ← s1.threads th
          some (
            th,
            put_thread s1 th (record t {
              block_pattern = 0x01;
              mit_policy = mit_policy;
              queue_length_max = queue_length_max;
              queue_pending = 0;
              queue_last_input = 0;
            }),
          ))

  -- The result of `sporadic_thread_create` is used with no test for NULL.
  unfoldable pub aperiodic_thread_create :
      Mallocs
      → (entry params_and_data stack stack_size priority offset_us max_deadline_us max_cost_us
          ov_policy queue_length_max error_handler : ℕ)
      → System
      → Option (ℕ × System)
  aperiodic_thread_create m entry params_and_data stack stack_size priority offset_us
        max_deadline_us max_cost_us ov_policy queue_length_max error_handler s =
      do
        (th, s1) ←
            sporadic_thread_create m entry params_and_data stack stack_size priority offset_us 0
              max_deadline_us max_cost_us ov_policy queue_length_max error_handler s
        t ← s1.threads th
        some (th, put_thread s1 th (record t { block_pattern = 0x02 }))
