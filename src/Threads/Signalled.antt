-- ===== src/Threads/Signalled.antt =====
-- A blocked thread of the highest priority runs when it is signalled.
use ecp_c.Base.{ℕ, ◌<◌, ◌≡◌, ◌≢◌, refl, ap, ◌∙◌, List, some, arith, length, ◌>>=◌}
use ecp_c.System.{Thread, System, Board, active, blocked, put_thread}
use ecp_c.Context.Switch.{IsReady}
use ecp_c.Scheduler.{wake, renew, refresh, thread_yield}
use ecp_c.Scheduler.Elect.{In}
use ecp_c.Scheduler.Yield.{IsRing}
use ecp_c.Scheduler.Start.{IsReady-eq}
use ecp_c.Scheduler.Preempt.{IsCalm, Without-ne}
use ecp_c.Scheduler.Highest.{IsAbove, thread_yield-highest, put-IsRing, put-IsCalm}
use ecp_c.Threads.{arrival, mit_violation, overflow_violation, thread_unblock, thread_signal}

-- An arrival writes only to the queue of the thread.
record Arrived (t t' : Thread) : Type 0 where
  pub next : t'.runq_next ≡ t.runq_next
  pub sp : t'.sp ≡ t.sp
  pub ats : t'.ats_active ≡ t.ats_active
  pub status : t'.status ≡ t.status
  pub priority : t'.priority ≡ t.priority

arrival-Arrived : (now : ℕ) (t : Thread) → Arrived t (arrival now t).1
unfolding arrival mit_violation overflow_violation
arrival-Arrived now t = record {
  next = ground arith;
  sp = ground arith;
  ats = ground arith;
  status = ground arith;
  priority = ground arith;
}

-- The control block after the signal.
abbrev pub signalled : System → Thread → Thread
signalled s t = record (arrival s.global_thread_tick_counter t).1 { status = active }

thread_signal-blocked :
    (b : Board) (fuel : ℕ) (s : System) (x : ℕ) {t : Thread}
    → x ≢ 0
    → s.threads x ≡ some t
    → t.status ≡ blocked
    → thread_signal b fuel x s ≡ (
        thread_yield b fuel
          (put_thread (put_thread s x (arrival s.global_thread_tick_counter t).1) x (signalled s t))
        >>= λ s'. some ((arrival s.global_thread_tick_counter t).0, s'))
unfolding thread_signal thread_unblock
thread_signal-blocked b fuel s x {t} null at_x asleep =
    let k = (arrival-Arrived s.global_thread_tick_counter t).status in ground (arith, k)

-- A blocked thread of the run queue, of a higher priority than main and all others of the queue but
-- the one that runs, runs when it is signalled. The answer is that of the arrival, and the queue of
-- the thread is as the arrival leaves it. The run queue is circular and has fuel, the running thread
-- has room for a frame, saved stack pointers are below 2 ^ 16 - 37, and no thread takes ATS signals.
pub thread_signal-runs :
    (b : Board) (fuel : ℕ) (s : System) (ws : List ℕ) (x : ℕ) {this t : Thread}
    → IsRing s ws
    → length ws < fuel
    → s.thread_list ≢ 0
    → IsReady b s
    → s.threads s.current_thread ≡ some this
    → IsCalm s
    → x ≢ 0
    → In x ws
    → s.threads x ≡ some t
    → t.status ≡ blocked
    → IsAbove s ws x t
    → (s' : System) × (thread_signal b fuel x s
        ≡ some ((arrival s.global_thread_tick_counter t).0, s'))
      × (s'.current_thread ≡ x)
      × (s'.threads x ≡ some (signalled s t))
thread_signal-runs b fuel s ws x {this} {t} ring enough listed ready live calm null i at_x asleep
      above =
    let (s', run, current, woken) =
      thread_yield-highest b fuel s2 ws x {this = this} {t = signalled s t} ring2 enough listed
        (IsReady-eq b s s2 refl ready) (ground (arith, live, away)) calm2 i (ground arith)
        (ap Thread.status awake) above2 in
    (
      s',
      thread_signal-blocked b fuel s x null at_x asleep
          ∙ ap (λ o. o >>= λ s'. some (answer, s')) run,
      current,
      woken ∙ ap some awake,
    )
  where
    answer : ℕ
    answer = (arrival s.global_thread_tick_counter t).0

    arrived : Thread
    arrived = (arrival s.global_thread_tick_counter t).1

    kept : Arrived t arrived
    kept = arrival-Arrived s.global_thread_tick_counter t

    s1 : System
    s1 = put_thread s x arrived

    s2 : System
    s2 = put_thread s1 x (signalled s t)

    at_x1 : s1.threads x ≡ some arrived
    at_x1 = ground arith

    ring2 : IsRing s2 ws
    ring2 =
        put-IsRing s1 x (signalled s t) at_x1 refl ws
          (put-IsRing s x arrived at_x kept.next ws ring)

    calm2 : IsCalm s2
    calm2 =
        put-IsCalm s1 x (signalled s t) at_x1 refl refl refl
          (put-IsCalm s x arrived at_x kept.next kept.sp kept.ats calm)

    away : x ≢ s.current_thread
    away = Without-ne s.current_thread x ws ring.others i

    awake : refresh s2 (signalled s t) ≡ signalled s t
    awake = unfold refresh in unfold wake in unfold renew in ground arith

    others : (y : ℕ) → y ≢ x → s2.threads y ≡ s.threads y
    others y ne = ground (arith, ne)

    not_main : s.thread_main_inf ≢ x
    not_main e = too_low (rw (e, at_x) at above.main)
      where
        too_low : t.priority < t.priority → ⊥
        too_low h = omega arith

    above2 : IsAbove s2 ws x (signalled s t)
    above2 = record {
      others = λ y u j ne at_y.
          rw kept.priority (above.others y u j ne (ground (arith, at_y, others y ne)));
      main = rw (others s.thread_main_inf not_main, kept.priority) above.main;
    }
