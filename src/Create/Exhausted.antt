-- ===== src/Create/Exhausted.antt =====
-- The creation of a thread when the allocator has no block for it.
use ecp_c.Base.{ℕ, ◌≡◌, some, none, arith}
use ecp_c.System.{System, Board}
use ecp_c.Create.{
  Mallocs, thread_create, periodic_thread_create, sporadic_thread_create, aperiodic_thread_create,
}

-- With no memory for the control block, the periodic and the sporadic creation return NULL and
-- change nothing; the aperiodic one writes through the NULL pointer.
pub create_exhausted :
    (b : Board) (fuel : ℕ) (m : Mallocs)
    (entry params stack stack_size priority offset_us period_us deadline_us cost_us policy
      queue_length_max error_handler : ℕ)
    (s : System)
    → m.block ≡ none
    → s.threads 0 ≡ none
    → (periodic_thread_create b fuel m entry params stack stack_size priority offset_us period_us
          deadline_us cost_us error_handler s
        ≡ some (0, s))
      × (sporadic_thread_create b fuel m entry params stack stack_size priority offset_us period_us
            deadline_us cost_us policy queue_length_max error_handler s
          ≡ some (0, s))
      × (aperiodic_thread_create b fuel m entry params stack stack_size priority offset_us
            deadline_us cost_us policy queue_length_max error_handler s
          ≡ none)
unfolding thread_create periodic_thread_create sporadic_thread_create aperiodic_thread_create
create_exhausted b fuel m entry params stack stack_size priority offset_us period_us deadline_us
      cost_us policy queue_length_max error_handler s exhausted null =
    (ground arith, ground arith, ground arith)
