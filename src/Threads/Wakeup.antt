-- ===== src/Threads/Wakeup.antt =====
-- A sleeping thread of the highest priority runs at the tick after its time.
use ecp_c.Base.{
  ℕ, ◌+◌, ◌^◌, ◌≤◌, ◌<◌, ◌≡◌, ◌≢◌, refl, ap, ◌∙◌, List, [], ◌∷◌, ◌++◌, some, arith, length,
}
use ecp_c.System.{Thread, System, Board, active, slept}
use ecp_c.Context.Switch.{IsReady}
use ecp_c.Scheduler.{wake, renew, refresh}
use ecp_c.Scheduler.Ring.{Walk-eq}
use ecp_c.Scheduler.Elect.{In, AllLive, priority_of}
use ecp_c.Scheduler.Yield.{IsRing}
use ecp_c.Scheduler.Start.{IsReady-eq}
use ecp_c.Scheduler.Preempt.{IsCalm}
use ecp_c.Scheduler.Highest.{thread_yield-highest}
use ecp_c.Threads.{timer2_ovf}

AllLive-eq :
    (s s' : System) (xs : List ℕ)
    → ((q : ℕ) → s'.threads q ≡ s.threads q)
    → AllLive s xs
    → AllLive s' xs
AllLive-eq s s' [] same all = tt
AllLive-eq s s' (x ∷ xs) same ((t, here), all) = ((t, same x ∙ here), AllLive-eq s s' xs same all)

-- The state in which the interrupt yields.
abbrev ticked : System → System
ticked s = record s {
  global_thread_tick_counter = s.global_thread_tick_counter + 1;
  yield = 0;
  carry_tick_counter = 0;
}

ticked-IsRing : (s : System) (ws : List ℕ) → IsRing s ws → IsRing (ticked s) ws
ticked-IsRing s ws r = record {
  walk = Walk-eq s (ticked s) s.current_thread (ws ++ s.current_thread ∷ []) (λ q. refl) r.walk;
  others = r.others;
  all_live = AllLive-eq s (ticked s) (ws ++ s.current_thread ∷ []) (λ q. refl) r.all_live;
  distinct = r.distinct;
  main_live = r.main_live;
}

-- A thread of the run queue that sleeps until tick `t.ticks_to_wait`, and has a higher priority than
-- main and all others of the queue but the one that runs, runs after the first timer interrupt past
-- that tick. The run queue is circular and has fuel, the running thread has room for a frame, saved
-- stack pointers are below 2 ^ 16 - 37, no thread takes ATS signals, and the counter does not wrap.
pub timer2_ovf-wakes :
    (b : Board) (fuel : ℕ) (s : System) (ws : List ℕ) (x : ℕ) {this t : Thread}
    → IsRing s ws
    → length ws < fuel
    → s.thread_list ≢ 0
    → IsReady b s
    → s.threads s.current_thread ≡ some this
    → IsCalm s
    → s.yield ≡ 0
    → s.global_thread_tick_counter + 1 < 2 ^ 32
    → s.tick_counter_previous ≤ s.global_thread_tick_counter
    → In x ws
    → s.threads x ≡ some t
    → t.status ≡ slept
    → t.carry_ticks_to_wait ≡ 0
    → t.ticks_to_wait ≤ s.global_thread_tick_counter
    → ((y : ℕ) (u : Thread) → In y ws → y ≢ x → s.threads y ≡ some u → u.priority < t.priority)
    → priority_of (s.threads s.thread_main_inf) < t.priority
    → (s' : System) × (timer2_ovf b fuel s ≡ some s')
      × (s'.current_thread ≡ x)
      × (s'.threads x ≡ some (record t { status = active }))
unfolding timer2_ovf
timer2_ovf-wakes b fuel s ws x {this} {t} ring enough listed ready live calm fresh small no_carry i
      at_x asleep plain due above above_main =
    let (s', run, current, woken) =
      thread_yield-highest b fuel (ticked s) ws x {this = this} {t = t} (ticked-IsRing s ws ring)
        enough listed (IsReady-eq b s (ticked s) refl ready) live calm i at_x (ap Thread.status up)
        (record { others = above; main = above_main }) in
    (s', ground (arith, run), current, woken ∙ ap some up)
  where
    up : refresh (ticked s) t ≡ record t { status = active }
    up = unfold refresh in unfold wake in unfold renew in ground arith
