-- ===== src/Tests/OfWakeup.antt =====
-- The second thread of the fixtures sleeps until tick 50, which is now; or is blocked, and signalled.
use ecp_c.Base.{ℕ, ◌<◌, ◌≡◌, ◌≢◌, inl, inr, refl, [], ◌∷◌, some, arith}
use ecp_c.System.{Thread, System, active, slept, blocked, update}
use ecp_c.Scheduler.Elect.{In}
use ecp_c.Scheduler.Yield.{IsRing}
use ecp_c.Scheduler.Start.{IsReady-eq}
use ecp_c.Scheduler.Preempt.{IsCalm}
use ecp_c.Scheduler.Highest.{IsAbove}
use ecp_c.Threads.{timer2_ovf, arrival, thread_signal}
use ecp_c.Threads.Signalled.{thread_signal-runs}
use ecp_c.Threads.Wakeup.{timer2_ovf-wakes}
use ecp_c.Tests.Fixtures.{system, board, first, second, main}
use ecp_c.Tests.OfContext.{system-IsReady}

abbrev sleeper : Thread
sleeper = record second { status = slept; ticks_to_wait = 50 }

abbrev dozing : System
dozing = record system { threads = update system.threads 20 (some sleeper) }

dozing-IsRing : IsRing dozing (20 ∷ 30 ∷ [])
dozing-IsRing = record {
  walk = (refl, (refl, (refl, tt)));
  others = ((omega arith), ((omega arith), tt));
  all_live = ((sleeper, refl), ((main, refl), ((first, refl), tt)));
  distinct = (ground arith, (ground arith, (ground arith, tt)));
  main_live = (main, refl);
}

dozing-IsCalm : IsCalm dozing
dozing-IsCalm q t e = (ground arith, ground arith)

lower :
    (y : ℕ) (u : Thread) → In y (20 ∷ 30 ∷ []) → y ≢ 20 → dozing.threads y ≡ some u → u.priority < 5
lower y u (inl e) n at_y = absurd (n e)
lower y u (inr (inl e)) n at_y = ground arith
lower y u (inr (inr i)) n at_y = absurd i

timer2_ovf-wakes_example :
    (s' : System) × (timer2_ovf board 3 dozing ≡ some s')
    × (s'.current_thread ≡ 20)
    × (s'.threads 20 ≡ some (record sleeper { status = active }))
timer2_ovf-wakes_example =
    timer2_ovf-wakes board 3 dozing (20 ∷ 30 ∷ []) 20 {this = first} {t = sleeper} dozing-IsRing
      (omega arith) (omega arith) (IsReady-eq board system dozing refl system-IsReady) refl
      dozing-IsCalm refl (omega arith) (omega arith) (inl refl) refl refl refl (omega arith) lower
      (omega arith)

-- The second thread is aperiodic and blocked, with room for three releases.
abbrev idle : Thread
idle = record second { status = blocked; block_pattern = 2; queue_length_max = 2 }

abbrev idling : System
idling = record system { threads = update system.threads 20 (some idle) }

idling-IsRing : IsRing idling (20 ∷ 30 ∷ [])
idling-IsRing = record {
  walk = (refl, (refl, (refl, tt)));
  others = ((omega arith), ((omega arith), tt));
  all_live = ((idle, refl), ((main, refl), ((first, refl), tt)));
  distinct = (ground arith, (ground arith, (ground arith, tt)));
  main_live = (main, refl);
}

idling-IsCalm : IsCalm idling
idling-IsCalm q t e = (ground arith, ground arith)

idle-IsAbove : IsAbove idling (20 ∷ 30 ∷ []) 20 idle
idle-IsAbove = record { others = below; main = omega arith }
  where
    below :
        (y : ℕ) (u : Thread)
        → In y (20 ∷ 30 ∷ [])
        → y ≢ 20
        → idling.threads y ≡ some u
        → u.priority < 5
    below y u (inl e) n at_y = absurd (n e)
    below y u (inr (inl e)) n at_y = ground arith
    below y u (inr (inr i)) n at_y = absurd i

thread_signal-runs_example :
    (s' : System) × (thread_signal board 3 20 idling ≡ some (0, s'))
    × (s'.current_thread ≡ 20)
    × (s'.threads 20
        ≡ some (record idle { status = active; queue_pending = 1; queue_last_input = 50 }))
unfolding arrival
thread_signal-runs_example =
    thread_signal-runs board 3 idling (20 ∷ 30 ∷ []) 20 {this = first} {t = idle} idling-IsRing
      (omega arith) (omega arith) (IsReady-eq board system idling refl system-IsReady) refl
      idling-IsCalm (omega arith) (inl refl) refl refl idle-IsAbove
