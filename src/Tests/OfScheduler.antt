-- ===== src/Tests/OfScheduler.antt =====
-- The scheduler on the system of the fixtures: whom it elects and switches to, what it charges, and
-- the signals that it delivers.
use ecp_c.Base.{
  ℕ, ◌==◌, ◌+◌, ◌-◌, ◌%◌, ◌^◌, ◌≤◌, ◌≡◌, ◌≢◌, ◌⊎◌, refl, [], ◌∷◌, Option, some, none, arith, ltb,
  if◌then◌else◌,
}
use ecp_c.System.{Thread, System, Board, ats_signal, active, overrun_prio, put_thread, update}
use ecp_c.Context.Layout.{IsFrame}
use ecp_c.Scheduler.{
  wake, renew, refresh, elect, visit, yield_loop, account, deliver_ats, thread_yield,
}
use ecp_c.Scheduler.Elect.{In, IsEligible, priority_of}
use ecp_c.Scheduler.Yield.{IsRing, yield_elects}
use ecp_c.Scheduler.Account.{account_lem}
use ecp_c.Scheduler.Signals.{IsCounted, deliver_ats_lem}
use ecp_c.Scheduler.Preempt.{IsCalm}
use ecp_c.Scheduler.Whole.{IsRunnable, thread_yield_lem}
use ecp_c.Tests.Fixtures.{system, board, first, second, main}
use ecp_c.Tests.OfContext.{system-IsReady}

system-IsRing : IsRing system (20 ∷ 30 ∷ [])
system-IsRing = record {
  walk = (refl, (refl, (refl, tt)));
  others = ((omega arith), ((omega arith), tt));
  all_live = ((second, refl), ((main, refl), ((first, refl), tt)));
  distinct = (ground arith, (ground arith, (ground arith, tt)));
  main_live = (main, refl);
}

yield_elects_example :
    (s' : System) × (e : ℕ) × (yield_loop 3 system 10 30 ≡ some (s', e))
    × ((e ≡ 30) ⊎ (In e (20 ∷ 30 ∷ []) × IsEligible s' e))
    × ((x : ℕ)
        → In x (20 ∷ 30 ∷ [])
        → IsEligible s' x
        → priority_of (system.threads x) ≤ priority_of (system.threads e))
    × (priority_of (system.threads 30) ≤ priority_of (system.threads e))
    × (e ≡ 10 → system.current_thread ≡ 30)
yield_elects_example = yield_elects system (20 ∷ 30 ∷ []) 3 system-IsRing (omega arith)

abbrev elected : Option (System × ℕ) → ℕ
elected none = 0
elected (some (s, e)) = e

elects_second : elected (yield_loop 3 system 10 30) ≡ 20
unfolding yield_loop visit elect refresh renew wake
elects_second = refl

system-IsCalm : IsCalm system
system-IsCalm q t e = (ground arith, ground arith)

thread_yield_lem_example :
    (s' : System) × (thread_yield board 3 system ≡ some s')
    × ((s'.current_thread ≡ 30)
        ⊎ (In s'.current_thread (20 ∷ 30 ∷ [])
            × (s'.current_thread ≢ 10)
            × ((t : Thread) × (system.threads s'.current_thread ≡ some t) × IsRunnable system t)))
    × ((x : ℕ) (t : Thread)
        → In x (20 ∷ 30 ∷ [])
        → system.threads x ≡ some t
        → IsRunnable system t
        → t.priority ≤ priority_of (system.threads s'.current_thread))
    × ((u : Thread) × (s'.threads 10 ≡ some u)
        × (u.sp ≡ 2000 - 37)
        × (u.current_cost_ticks ≡ 10)
        × (u.priority ≡ (if ltb 0xffff_ffff 10 then overrun_prio else 9)))
    × IsFrame s'.cpu.ram (2000 - 37) system.cpu.regs (0x83 % 128) 0x1234
    × ((x : ℕ) (t : Thread)
        → In x (20 ∷ 30 ∷ [])
        → system.threads x ≡ some t
        → (u : Thread) × (s'.threads x ≡ some u)
          × (u.priority ≡ t.priority)
          × (IsRunnable system t → u.status ≡ active)
          × (¬ IsRunnable system t → u.status ≡ t.status))
thread_yield_lem_example =
    thread_yield_lem board 3 system (20 ∷ 30 ∷ []) {this = first} system-IsRing (omega arith)
      (omega arith) system-IsReady refl system-IsCalm

-- A thread that has used 25 ticks of its 30, and goes on for 10.
abbrev costly : Thread
costly = record first { current_cost_ticks = 25; max_cost_ticks = 30 }

account_lem_example :
    account (record system { threads = update system.threads 10 (some costly) })
    ≡ some (
        put_thread
          (record system {
            threads = update system.threads 10 (some costly);
            tick_counter_last_cost = 50;
          })
          10
          (if ltb 30 ((25 + (50 - 40)) % 2 ^ 32)
            then record costly {
              current_cost_ticks = (25 + (50 - 40)) % 2 ^ 32;
              priority = overrun_prio;
            }
            else record costly { current_cost_ticks = (25 + (50 - 40)) % 2 ^ 32 }))
account_lem_example =
    account_lem (record system { threads = update system.threads 10 (some costly) }) {this = costly}
      refl (omega arith) (omega arith)

-- A handler that counts its calls for signals, in a cell of the state.
abbrev counting : Board
counting = record board {
  error_handler = λ h e s.
      if e == ats_signal then some (record s { next_thread = s.next_thread + 1 }) else some s;
}

-- Two signals are pending.
abbrev handled : Thread
handled = record first { error_handler = 7; ats_pending = 2 }

counting-IsCounted : IsCounted counting 7 System.next_thread
counting-IsCounted = record {
  call = λ s. (record s { next_thread = s.next_thread + 1 }, refl, refl, refl, refl);
  write = λ s p t. refl;
}

abbrev signalled : System
signalled = record system { threads = update system.threads 10 (some handled) }

deliver_ats_lem_example :
    (s' : System) × (deliver_ats counting 3 3 signalled ≡ some s')
    × (s'.current_thread ≡ 10)
    × (s'.threads 10 ≡ some (record handled { ats_pending = 0 }))
    × (System.next_thread s' ≡ 20 + 2)
deliver_ats_lem_example =
    deliver_ats_lem counting 3 3 signalled System.next_thread {this = handled} counting-IsCounted
      (omega arith) refl (omega arith)
