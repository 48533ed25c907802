-- ===== src/Tests/OfKernel2.antt =====
-- The earlier kernel on the system of the fixtures: its scheduler, a switch there and back, and a
-- thread that is created at 40 and started.
use ecp_c.Base.{
  ℕ, ◌+◌, ◌<◌, ◌≡◌, ◌≢◌, ◌>>=◌, inl, inr, refl, sym, ap, ◌∙◌, [], ◌∷◌, Option, some, none, some_inj,
  arith, ◌==◌, ltb, if◌then◌else◌,
}
use mathlib.Core.Path.{subst}
use ecp_c.System.{active, slept}
use ecp_c.Scheduler.{yield_loop as yield_loop_lib, account as account_lib}
use ecp_c.Scheduler.Elect.{Distinct}
use ecp_c.Kernel2.State.{Thread, System, Upcalls, put_thread, cli}
use ecp_c.Kernel2.Switch.{do_switch}
use ecp_c.Kernel2.Scheduler.{wake, yield_loop, account, thread_start, thread_yield}
use ecp_c.Kernel2.Create.{Mallocs, initial_stack, thread_create}
use ecp_c.Kernel2.Pattern.{next_stage}
use ecp_c.Kernel2.Forget.{forget, forget_thread, map_forget, yield_loop-account-forget}
use ecp_c.Kernel2.Exchange.{IsReady, Switched, do_switch-other}
use ecp_c.Kernel2.Resume.{LeftAlone, switch_and_resume}
use ecp_c.Kernel2.Links.{Links, prepared, thread_create-Links}
use ecp_c.Kernel2.Start.{IsApart, thread_create-thread_start}
use ecp_c.Kernel2.Grid.{next_stage-release}
use ecp_c.Kernel2.FirstThread.{thread_create-Links_first}
use ecp_c.Tests.Fixtures.{
  board, system as lib_system, blank as lib_blank, first as lib_first, second as lib_second,
  main as lib_main,
}
use ecp_c.Tests.OfContext.{board_spills}

abbrev prev : ℕ → ℕ
prev q = if q == 20 then 10 else if q == 30 then 20 else 0

abbrev pub system : System
system = forget prev lib_system

abbrev pub first : Thread
first = forget_thread 0 lib_first

abbrev second : Thread
second = forget_thread 10 lib_second

abbrev main : Thread
main = forget_thread 20 lib_main

abbrev blank : Thread
blank = forget_thread 0 lib_blank

yield_loop-account-forget_example :
    (yield_loop 3 system 10 30 >>= λ r. account r.0 >>= λ s'. some (s', r.1))
    ≡ map_forget prev
        (yield_loop_lib 3 lib_system 10 30 >>= λ r. account_lib r.0 >>= λ s'. some (s', r.1))
yield_loop-account-forget_example = yield_loop-account-forget prev 3 lib_system

system-IsReady : IsReady board system.cpu
system-IsReady = record {
  small = omega arith;
  room = omega arith;
  linked = record { low = refl; high = refl; reach = omega arith };
  apart = inl (omega arith);
  spilled = board_spills;
  px_low = inl (omega arith);
  px_high = inl (omega arith);
  aux_low = inl (omega arith);
  aux_high = inl (omega arith);
}

abbrev to_second : System
to_second = record system { next_thread = 20 }

there :
    (s' : System) × (do_switch board to_second ≡ some s') × Switched board to_second first 1500 s'
there =
    do_switch-other board to_second system-IsReady {this = first} {next = second} refl refl
      (omega arith) (omega arith)

abbrev result : Option System → System
result none = system
result (some s) = s

some-result : (o : Option System) {s : System} → o ≡ some s → o ≡ some (result o)
some-result o {s} e = e ∙ sym (ap (λ p. some (result p)) e)

-- The second thread runs.
abbrev switched : System
switched = result (do_switch board to_second)

switched_run : do_switch board to_second ≡ some switched
switched_run = some-result (do_switch board to_second) there.1

switched-Switched : Switched board to_second first 1500 switched
switched-Switched =
    let (s, run, k) = there in
    subst (Switched board to_second first 1500) (some_inj (sym run ∙ switched_run)) k

-- Then it switches back: the first thread is next again.
abbrev returning : System
returning = record switched { next_thread = 10 }

switched_current : returning.current_thread ≡ 20
switched_current = ap System.current_thread switched-Switched.state

switched_second : returning.threads returning.current_thread ≡ some second
switched_second =
    ap returning.threads switched_current ∙ ap (λ s. System.threads s 20) switched-Switched.state

returning-IsReady : IsReady board returning.cpu
returning-IsReady = record {
  small = omega (arith, switched-Switched.sp);
  room = omega (arith, switched-Switched.sp);
  linked = record {
    low = switched-Switched.memory 0x100 (inl (omega arith)) (omega arith) (omega arith);
    high = switched-Switched.memory 0x101 (inl (omega arith)) (omega arith) (omega arith);
    reach = omega arith;
  };
  apart = inl (omega arith);
  spilled = board_spills;
  px_low = inl (omega (arith, switched-Switched.sp));
  px_high = inl (omega (arith, switched-Switched.sp));
  aux_low = inl (omega (arith, switched-Switched.sp));
  aux_high = inl (omega (arith, switched-Switched.sp));
}

returning-LeftAlone : LeftAlone board switched returning 10 1965
returning-LeftAlone = record {
  block = refl;
  bytes = λ q above under. refl;
  apart = λ q above under. inr (omega (arith, switched-Switched.sp));
  not_aux = λ q above under. (omega arith, omega arith);
}

switch_and_resume_example :
    (s3 : System) × (do_switch board returning ≡ some s3)
    × (s3.current_thread ≡ 10)
    × ((i : ℕ) → i < 32 → s3.cpu.regs i ≡ system.cpu.regs i)
    × (s3.cpu.sp ≡ 2000)
    × (s3.cpu.pc ≡ 0x1234)
    × (s3.cpu.sreg ≡ 0x83)
switch_and_resume_example =
    switch_and_resume board to_second switched returning {this = first} {next = second}
      {other = second} system-IsReady refl refl (omega arith) (omega arith) switched_run
      returning-LeftAlone returning-IsReady switched_second (omega (arith, switched_current)) refl

abbrev mallocs : Mallocs
mallocs = record { block = some (40, blank); stack = some 600; main = none }

system-Links : Links system 10 (20 ∷ 30 ∷ [])
system-Links = (
  omega arith,
  (first, refl, refl),
  (second, refl, refl),
  (omega arith, (second, refl, refl), (main, refl, refl), (refl, (main, refl, refl))),
)

queue-Distinct : Distinct (10 ∷ 20 ∷ 30 ∷ [])
queue-Distinct = (ground arith, (ground arith, (ground arith, tt)))

thread_create-Links_example :
    (s' : System) × (thread_create board mallocs 0x2345 0 100 6 0 system ≡ some (40, s'))
    × (s'.thread_list ≡ 40)
    × Links s' 40 (10 ∷ 20 ∷ 30 ∷ [])
    × Distinct (40 ∷ 10 ∷ 20 ∷ 30 ∷ [])
    × ((q : ℕ) → q ≢ 40 → q ≢ 10 → s'.threads q ≡ system.threads q)
thread_create-Links_example =
    thread_create-Links board mallocs 0x2345 0 100 6 0 system (20 ∷ 30 ∷ []) 40 blank 600
      (omega arith) system-Links queue-Distinct refl refl (ground arith) (omega arith)

prepared-IsReady : IsReady board (prepared board mallocs 0x2345 0 100 6 0 system 40 blank 600).cpu
unfolding initial_stack
prepared-IsReady = record {
  small = omega arith;
  room = omega arith;
  linked = record { low = refl; high = refl; reach = omega arith };
  apart = inl (omega arith);
  spilled = board_spills;
  px_low = inl (omega arith);
  px_high = inl (omega arith);
  aux_low = inl (omega arith);
  aux_high = inl (omega arith);
}

new-IsApart : IsApart board mallocs 0x2345 0 100 6 0 system 40 blank 600
new-IsApart q low high = (inl (omega arith), omega arith, omega arith)

thread_create-thread_start_example :
    (s1 : System) × (s2 : System) × (thread_create board mallocs 0x2345 0 100 6 0 system
      ≡ some (40, s1))
    × (thread_start board s1 40 ≡ some s2)
    × (s2.current_thread ≡ 40)
    × (s2.cpu.pc ≡ 0x2345)
    × (s2.cpu.sp + 1 ≡ 600 + 100)
    × ((i : ℕ) → i < 32 → s2.cpu.regs i ≡ 0)
    × (s2.cpu.sreg ≡ 0)
thread_create-thread_start_example =
    thread_create-thread_start board mallocs 0x2345 0 100 6 0 system 40 blank 600 {head = first}
      {this = first} (omega arith) refl refl refl (omega arith) refl (omega arith) (omega arith)
      (omega arith) (omega arith) prepared-IsReady new-IsApart

abbrev pub upcalls : Upcalls
upcalls = record {
  periodic_pattern = 0x2345;
  error_handler = λ f e s. some s;
  executor = λ f s. some s;
}

-- A period of 30 ticks, released at tick 25.
abbrev pub periodic : System
periodic = put_thread system 10 (record first { min_period_ticks = 30 })

next_stage-release_example :
    (t' : Thread) × (t'.flags ≡ slept)
    × (t'.ticks_to_wait ≡ 25 + 30)
    × (next_stage board upcalls 3 10 25 50 periodic
        ≡ (thread_yield board 3 (put_thread (cli periodic) 10 t') >>= λ s'. some (25 + 30, s')))
    × ((later : System)
        → wake later t'
          ≡ (if ltb (25 + 30) later.tick_counter_us then record t' { flags = active } else t'))
next_stage-release_example =
    next_stage-release board upcalls 3 25 periodic refl (omega arith) (omega arith) (omega arith)

-- No thread yet; main gets the block at 50.
abbrev before : System
before = record system { thread_list = 0 }

abbrev with_main : Mallocs
with_main = record mallocs { main = some (50, blank) }

before-IsReady : IsReady board (prepared board with_main 0x2345 0 100 6 0 before 40 blank 600).cpu
unfolding initial_stack
before-IsReady = record {
  small = omega arith;
  room = omega arith;
  linked = record { low = refl; high = refl; reach = omega arith };
  apart = inl (omega arith);
  spilled = board_spills;
  px_low = inl (omega arith);
  px_high = inl (omega arith);
  aux_low = inl (omega arith);
  aux_high = inl (omega arith);
}

thread_create-Links_first_example :
    (s' : System) × (thread_create board with_main 0x2345 0 100 6 0 before ≡ some (40, s'))
    × (s'.current_thread ≡ 50)
    × (s'.thread_main_inf ≡ 50)
    × (s'.thread_list ≡ 40)
    × Links s' 40 (50 ∷ [])
    × ((i : ℕ) → i < 32 → s'.cpu.regs i ≡ before.cpu.regs i)
    × (s'.cpu.sp ≡ 2000)
    × (s'.cpu.pc ≡ 0x1234)
thread_create-Links_first_example =
    thread_create-Links_first board with_main 0x2345 0 100 6 0 before 40 blank 600 50 blank refl
      refl refl refl (ground arith) before-IsReady
