-- ===== src/Kernel2/Create.antt =====
-- Creation of threads in arduino/context_switch_2_0/context_switch_2_0.ino. What `malloc` returns,
-- and what its blocks hold, are arguments; the pointer 0 is NULL.
use ecp_c.Base.{
  ℕ, zero, suc, ◌+◌, ◌-◌, ◌/◌, ◌%◌, ◌∷◌, Option, some, none, ◌==◌, ltb, if◌then◌else◌, ◌>>=◌, u16,
}
use ecp_c.System.{Board, active, norm_prio, us_per_tick}
use ecp_c.Create.{push_initial}
use ecp_c.Kernel2.State.{Thread, System, Upcalls, put_thread, cli, sei}
use ecp_c.Kernel2.Scheduler.{thread_start}

pub record Mallocs : Type 0 where
  pub block : Option (ℕ × Thread)
  pub stack : Option ℕ
  pub main : Option (ℕ × Thread)

-- memset(stack, 0x99, stack_size)
abbrev pub fill_stack : ℕ → ℕ → (ℕ → ℕ) → ℕ → ℕ
fill_stack stack stack_size ram q =
    if ltb (u16 (q + 0x1_0000 - stack)) stack_size then 0x99 else ram q

abbrev pub push_zeros : ℕ → ℕ × (ℕ → ℕ) → ℕ × (ℕ → ℕ)
push_zeros zero p = p
push_zeros (suc n) p = push_zeros n (push_initial 0 p)

-- The entry and 33 zeros at the top of a new stack, and the stack pointer below them.
unfoldable pub initial_stack : ℕ → ℕ → ℕ → (ℕ → ℕ) → ℕ × (ℕ → ℕ)
initial_stack entry stack stack_size ram = push_zeros 33 (
    push_initial (entry / 256 % 256) (
      push_initial (entry % 256)
        (u16 (stack + stack_size + 0xffff), fill_stack stack stack_size ram)))

-- The control block of main, over the block `g`; its flags are left as `malloc` gave them.
abbrev pub main_block : Thread → Thread
main_block g = record g {
  priority = norm_prio;
  parm = 0;
  max_cost_ticks = 0xffff_ffff;
  runq_next = 0;
  runq_prev = 0;
}

abbrev pub new_block : (entry stack stack_size priority parm : ℕ) → (ℕ → ℕ) → Thread → Thread
new_block entry stack stack_size priority parm ram g = record g {
  priority = priority;
  parm = parm;
  flags = active;
  stack = stack;
  stack_size = stack_size;
  sp = (initial_stack entry stack stack_size ram).0;
}

abbrev pub with_block : System → (th entry stack stack_size priority parm : ℕ) → Thread → System
with_block s th entry stack stack_size priority parm g =
    put_thread
      (record s { cpu = record s.cpu { ram = (initial_stack entry stack stack_size s.cpu.ram).1 } })
      th (new_block entry stack stack_size priority parm s.cpu.ram g)

-- The new thread at the head of the run queue.
unfoldable pub link : ℕ → System → Option System
link th s = do
  t ← s.threads th
  let s1 = put_thread s th (record t { runq_next = s.thread_list })
  head ← s1.threads s.thread_list
  some (record (put_thread s1 s.thread_list (record head { runq_prev = th })) { thread_list = th })

-- Creation, over the control block that main gets.
module _ (main_block : Thread → Thread) (b : Board) where
  -- The first thread brings the control block of main with it, and a switch of main to itself.
  unfoldable pub create_main : Option (ℕ × Thread) → System → Option System
  create_main main s =
      if s.thread_list == 0
      then (do
        (p, g) ← main
        thread_start b
            (record (put_thread (sei (cli s)) p (main_block g)) {
              thread_main_inf = p;
              thread_list = p;
              current_thread = p;
            })
            p)
      else some s

  -- The thread, and the state.
  unfoldable pub create_with :
      Mallocs → (entry stack stack_size priority parm : ℕ) → System → Option (ℕ × System)
  create_with m entry stack stack_size priority parm s = elim m.block [
    | none ↦ some (0, sei (cli s))
    | some (th, g) ↦ elim (if stack == 0 then m.stack else some stack) [
      | none ↦ some (0, record (sei (cli s)) { freed = th ∷ s.freed })
      | some stack' ↦ (do
        s2 ←
            create_main m.main (with_block (sei (cli s)) th entry stack' stack_size priority parm g)
        s3 ← link th s2
        some (th, s3))
    ]
  ]

module _ (b : Board) where
  unfoldable pub thread_create :
      Mallocs → (entry stack stack_size priority parm : ℕ) → System → Option (ℕ × System)
  thread_create m entry stack stack_size priority parm s =
      create_with main_block b m entry stack stack_size priority parm s

  module _ (u : Upcalls) where
    unfoldable pub periodic_thread_create :
        Mallocs
        → (entry stack stack_size priority offset_us period_us max_deadline_us max_cost_us
            error_handler : ℕ)
        → System
        → Option (ℕ × System)
    periodic_thread_create m entry stack stack_size priority offset_us period_us max_deadline_us
          max_cost_us error_handler s =
        do
          (th, s1) ← thread_create m u.periodic_pattern stack stack_size priority 0 s
          if th == 0 then some (0, s1) else (do
            t ← s1.threads th
            some (
              th,
              put_thread s1 th (record t {
                executor = entry;
                error_handler = error_handler;
                offset_ticks = offset_us / us_per_tick;
                min_period_ticks = period_us / us_per_tick;
                max_cost_ticks = max_cost_us / us_per_tick;
                max_deadline_ticks = max_deadline_us / us_per_tick;
                block_pattern = 0x00;
              }),
            ))

    unfoldable pub sporadic_thread_create :
        Mallocs
        → (entry stack stack_size priority offset_us mit_period_us max_deadline_us max_cost_us
            error_handler : ℕ)
        → System
        → Option (ℕ × System)
    sporadic_thread_create m entry stack stack_size priority offset_us mit_period_us max_deadline_us
          max_cost_us error_handler s =
        do
          (th, s1) ←
              periodic_thread_create m entry stack stack_size priority offset_us mit_period_us
                max_deadline_us max_cost_us error_handler s
          if th == 0 then some (0, s1) else (do
            t ← s1.threads th
            some (th, put_thread s1 th (record t { block_pattern = 0x01 })))

    unfoldable pub aperiodic_thread_create :
        Mallocs
        → (entry stack stack_size priority offset_us max_deadline_us max_cost_us error_handler : ℕ)
        → System
        → Option (ℕ × System)
    aperiodic_thread_create m entry stack stack_size priority offset_us max_deadline_us max_cost_us
          error_handler s =
        sporadic_thread_create m entry stack stack_size priority offset_us 0 max_deadline_us
          max_cost_us error_handler s
