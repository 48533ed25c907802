-- ===== src/Tests/OfCreate.antt =====
-- A third thread is created at 40, switched to, and removed; the second one is removed.
use ecp_c.Base.{ℕ, ◌+◌, ◌*◌, ◌≡◌, ◌≢◌, refl, [], ◌∷◌, some, none, arith}
use ecp_c.System.{Thread, System, active}
use ecp_c.Context.{do_switch}
use ecp_c.Scheduler.Chain.{Chain}
use ecp_c.Scheduler.Elect.{In}
use ecp_c.Create.{
  Mallocs, initial_stack, thread_create, periodic_thread_create, sporadic_thread_create,
  aperiodic_thread_create,
}
use ecp_c.Create.Exhausted.{create_exhausted}
use ecp_c.Create.First.{create_links, first_switch_overruns}
use ecp_c.Tests.Fixtures.{board, system, blank, first, second}
use ecp_c.Tests.OfContext.{system-IsReady}
use ecp_c.Tests.OfSemaphore.{system-Chain}

abbrev mallocs : Mallocs
mallocs = record { block = some (40, blank); stack = some 600; main = none }

absent : ¬ In 40 (10 ∷ 20 ∷ [])
absent = ground arith

create_links_example :
    (s' : System) × (t : Thread) × (thread_create board 3 mallocs 0x2345 0 100 6 0 system
      ≡ some (40, s'))
    × Chain s' s'.thread_list (40 ∷ 10 ∷ 20 ∷ [])
    × (s'.threads 40 ≡ some t)
    × ((t.status ≡ active)
        × (t.priority ≡ 6)
        × (t.stack ≡ 600)
        × (t.stack_size ≡ 100)
        × (t.sp ≡ (initial_stack 0x2345 600 100 system.cpu.ram).0))
    × ((q : ℕ) → q ≢ 40 → s'.threads q ≡ system.threads q)
create_links_example =
    create_links board 3 mallocs 0x2345 0 100 6 0 system (10 ∷ 20 ∷ []) 40 blank 600 (omega arith)
      system-Chain refl (omega arith) absent (omega arith) refl

-- The second thread is as `thread_create` has left it.
fresh : second.sp ≡ (initial_stack 0x2345 second.stack second.stack_size system.cpu.ram).0
unfolding initial_stack
fresh = refl

first_switch_overruns_example :
    (s' : System) × (do_switch board system ≡ some s')
    × (s'.cpu.sp ≡ 1300 + 207 + 30)
    × (s'.cpu.pc ≡ s'.cpu.ram (1300 + 207 + 29) * 256 + s'.cpu.ram (1300 + 207 + 30))
first_switch_overruns_example =
    first_switch_overruns board system {this = first} {new = second} 0x2345 system.cpu.ram
      system-IsReady refl refl (omega arith) fresh (omega arith) (omega arith)

-- No memory is left.
abbrev exhausted : Mallocs
exhausted = record { block = none; stack = none; main = none }

create_exhausted_example :
    (periodic_thread_create board 3 exhausted 0x2345 0 0 100 6 0 1280 1280 640 0 system
      ≡ some (0, system))
    × (sporadic_thread_create board 3 exhausted 0x2345 0 0 100 6 0 1280 1280 640 0x22 4 0 system
        ≡ some (0, system))
    × (aperiodic_thread_create board 3 exhausted 0x2345 0 0 100 6 0 1280 640 0x22 4 0 system ≡ none)
create_exhausted_example =
    create_exhausted board 3 exhausted 0x2345 0 0 100 6 0 1280 1280 640 0x22 4 0 system refl refl
