-- ===== src/Tests/OfPattern.antt =====
-- An aperiodic thread of the fixtures with one pending release works a cycle and blocks itself.
use ecp_c.Base.{◌+◌, ◌≤◌, ◌≡◌, refl, [], ◌∷◌, some, some_inj, arith}
use mathlib.Core.Path.{subst}
use ecp_c.System.{Thread, System, put_thread, blocked}
use ecp_c.Scheduler.{thread_yield}
use ecp_c.Scheduler.Yield.{IsRing}
use ecp_c.Scheduler.Start.{IsReady-eq}
use ecp_c.Scheduler.Preempt.{IsCalm, yield_switches}
use ecp_c.Threads.{get_current_cost_ticks, thread_block, timer2_ovf_return}
use ecp_c.Lifecycle.Call.{Call, call}
use ecp_c.Pattern.{
  Point, await_release, check_limits, next_stage, run_cycle, end_cycle, periodic_pattern,
}
use ecp_c.Pattern.Loop.{Loop}
use ecp_c.Pattern.Pending.{HasPending}
use ecp_c.Pattern.Pending.Runs.{signals}
use ecp_c.Pattern.Pending.Cycles.{cycles_signalled}
use ecp_c.Tests.Fixtures.{system, board, first, second, main}
use ecp_c.Tests.OfContext.{system-IsReady}

abbrev released : Thread
released = record first { block_pattern = 2; queue_pending = 1 }

abbrev aperiodic : System
aperiodic = put_thread system 10 released

abbrev measured : Thread
measured = record released { current_cost_ticks = 10 }

abbrev after_work : System
after_work =
    put_thread (record (put_thread aperiodic 10 released) { tick_counter_last_cost = 50 }) 10
      measured

abbrev after_end : System
after_end = put_thread after_work 10 (record measured { queue_pending = 0 })

abbrev parked : System
parked = put_thread after_end 10 (record measured { queue_pending = 0; status = blocked })

parked-IsRing : IsRing parked (20 ∷ 30 ∷ [])
parked-IsRing = record {
  walk = (refl, (refl, (refl, tt)));
  others = ((omega arith), ((omega arith), tt));
  all_live = (
    (second, refl),
    ((main, refl), ((record measured { queue_pending = 0; status = blocked }, refl), tt)),
  );
  distinct = (ground arith, (ground arith, (ground arith, tt)));
  main_live = (main, refl);
}

parked-IsCalm : IsCalm parked
parked-IsCalm q u e = (ground arith, ground arith)

returns : (s' : System) × (thread_yield board 3 parked ≡ some s')
returns =
    let (s', run, _, _, _, _, _) =
      yield_switches board 3 parked (20 ∷ 30 ∷ []) parked-IsRing (omega arith) (omega arith)
        (IsReady-eq board system parked refl system-IsReady) refl parked-IsCalm in
    (s', run)

works : periodic_pattern board 3 10 Point.waiting aperiodic ≡ some (Point.worked, after_work)
unfolding periodic_pattern run_cycle get_current_cost_ticks check_limits next_stage
works = refl

ends : periodic_pattern board 3 10 Point.worked after_work ≡ some (Point.waiting, after_end)
unfolding periodic_pattern end_cycle
ends = refl

blocks : periodic_pattern board 3 10 Point.waiting after_end ≡ some (Point.waiting, returns.0)
unfolding periodic_pattern await_release thread_block
blocks = rw returns.1 refl

one_cycle :
    (s' : System) × Loop board 3 10 1
      (Call.tick_return ∷ [])
      Point.waiting
      aperiodic
      Point.waiting
      s'
unfolding call timer2_ovf_return
one_cycle = (
  _,
  Loop.go_on refl works (Loop.go_on refl ends (Loop.go_on refl blocks (Loop.other refl Loop.stop))),
)

cycles_signalled_example : 1 ≤ 1 + signals 10 (Call.tick_return ∷ [])
cycles_signalled_example =
    cycles_signalled board 3 10 1 (Call.tick_return ∷ []) Point.waiting Point.waiting aperiodic
      one_cycle.0 {t = released} (omega arith)
      (λ h e low high s s' same k. subst (HasPending 10 low high) (some_inj same) k)
      (λ f low high s s' same k. subst (HasPending 10 low high) (some_inj same) k) (ground arith)
      refl (omega arith) (omega arith) (tt, tt) one_cycle.1
