-- ===== src/Kernel1/Create.antt =====
-- Creation of threads in arduino/context_switch/context_switch.ino.
use ecp_c.Base.{ℕ, ◌/◌, Option, some, ◌>>=◌}
use ecp_c.System.{Board, norm_prio, us_per_tick}
use ecp_c.Kernel2.State.{Thread, System, Upcalls, put_thread}
use ecp_c.Kernel2.Create.{Mallocs, create_with}

-- The control block of main, over the block `g`, which has no budget.
abbrev pub main_block : Thread → Thread
main_block g = record g { priority = norm_prio; parm = 0; runq_next = 0; runq_prev = 0 }

module _ (b : Board) where
  unfoldable pub thread_create :
      Mallocs → (entry stack stack_size priority parm : ℕ) → System → Option (ℕ × System)
  thread_create m entry stack stack_size priority parm s =
      create_with main_block b m entry stack stack_size priority parm s

  -- The state only: the function ends without a `return`. NULL is not tested for.
  unfoldable pub periodic_thread_create :
      Upcalls
      → Mallocs
      → (entry stack stack_size priority period_us max_deadline_us max_cost_us error_handler : ℕ)
      → System
      → Option System
  periodic_thread_create u m entry stack stack_size priority period_us max_deadline_us max_cost_us
        error_handler s =
      do
        (th, s1) ← thread_create m u.periodic_pattern stack stack_size priority 0 s
        t ← s1.threads th
        some (
            put_thread s1 th (record t {
              executor = entry;
              error_handler = error_handler;
              min_period_ticks = period_us / us_per_tick;
              max_cost_ticks = max_cost_us / us_per_tick;
              max_deadline_ticks = max_deadline_us / us_per_tick;
            }))
