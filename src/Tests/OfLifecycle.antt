-- ===== src/Tests/OfLifecycle.antt =====
-- A run of the library on the system of the fixtures: a thread is created at 40, and the second
-- thread is removed.
use ecp_c.Base.{
  ℕ, ◌≤◌, ◌≡◌, ◌≢◌, ◌⊎◌, inl, refl, sym, ap, List, [], ◌∷◌, some, none, some_inj, arith, ◌==◌,
  if◌then◌else◌,
}
use mathlib.Core.Path.{subst}
use ecp_c.System.{System, put_thread}
use ecp_c.Scheduler.{yield_loop}
use ecp_c.Scheduler.Elect.{In, IsEligible, priority_of}
use ecp_c.Scheduler.Kept.{KeepsQueue, HandlersKeep, keeps_refl}
use ecp_c.Create.{Mallocs, new_block, with_block, thread_create, create_main}
use ecp_c.Remove.{find_previous, unlink, thread_remove}
use ecp_c.Lifecycle.Queue.{HasQueue, circle, IsFresh}
use ecp_c.Lifecycle.Lands.{HandlersStay}
use ecp_c.Lifecycle.Call.{Call, call, queue_run}
use ecp_c.Lifecycle.Runs.{Run, IsCarefulRun, calls_refine}
use ecp_c.Lifecycle.Yields.{run_yields}
use ecp_c.Tests.Fixtures.{board, system, blank, first}
use ecp_c.Tests.OfSemaphore.{system-Chain, queue-Distinct}

abbrev mallocs : Mallocs
mallocs = record { block = some (40, blank); stack = some 600; main = none }

abbrev threads : List ℕ
threads = 10 ∷ 20 ∷ []

abbrev calls : List Call
calls = Call.create mallocs 0x2345 0 100 6 0 ∷ Call.remove 20 ∷ []

system-HasQueue : HasQueue system threads
system-HasQueue = record {
  chain = system-Chain;
  distinct = queue-Distinct;
  main_last = refl;
  main_ne = omega arith;
}

-- The handlers of the fixtures do nothing.
board-HandlersKeep : HandlersKeep board
board-HandlersKeep h e s s' ran = subst (KeepsQueue s) (some_inj ran) (keeps_refl s)

abbrev made : System
made =
    record (put_thread (with_block system 40 0x2345 600 100 6 0 blank) 40
      (record (new_block 0x2345 600 100 6 0 system.cpu.ram blank) { runq_next = 10 })) {
        thread_list = 40;
      }

abbrev relinked : System
relinked = put_thread made 10 (record first { runq_next = 30 })

abbrev removed : System
removed = record relinked {
  threads = λ q. if 20 == q then none else relinked.threads q;
  freed = 20 ∷ 1300 ∷ [];
}

created : call board 5 (Call.create mallocs 0x2345 0 100 6 0) system ≡ some made
unfolding call thread_create create_main
created = refl

taken_out : call board 5 (Call.remove 20) made ≡ some removed
unfolding call thread_remove find_previous unlink
taken_out = refl

free : IsFresh system (some (40, blank))
free th g e =
    subst (λ q. (q ≢ 0) × (system.threads q ≡ none)) (ap (λ p. p.0) (some_inj e))
      (omega arith, refl)

none_needed : IsFresh made none
none_needed th g e = absurd (ground arith)

abbrev run : Run board 5 calls system removed
run = Run.step free created (Run.step none_needed taken_out Run.stop)

calls_refine_example : HasQueue removed (queue_run calls threads)
calls_refine_example =
    calls_refine board 5 calls system removed threads board-HandlersKeep system-HasQueue
      (omega arith) run

board-HandlersStay : HandlersStay board
board-HandlersStay h e s s' ran = ap System.current_thread (sym (some_inj ran))

careful : IsCarefulRun run
careful = (tt, (ground arith, tt))

run_yields_example :
    (s2 : System) × (e : ℕ) × (yield_loop 5 removed 10 30 ≡ some (s2, e))
    × ((e ≡ 30) ⊎ (In e (circle removed (queue_run calls threads)) × IsEligible s2 e))
    × ((q : ℕ)
        → In q (queue_run calls threads)
        → q ≢ 10
        → IsEligible s2 q
        → priority_of (removed.threads q) ≤ priority_of (removed.threads e))
    × (2 ≤ priority_of (removed.threads e))
run_yields_example =
    run_yields board 5 calls system removed threads board-HandlersKeep board-HandlersStay
      system-HasQueue (inl refl) (omega arith) run careful
