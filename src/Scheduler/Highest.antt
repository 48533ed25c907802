-- ===== src/Scheduler/Highest.antt =====
-- A thread that is above all others of the run queue runs after `thread_yield`.
use ecp_c.Base.{
  ℕ, ◌+◌, ◌^◌, ◌≤◌, ◌<◌, ◌≡◌, ◌≢◌, ◌⊎◌, inl, inr, List, [], ◌∷◌, ◌++◌, some, arith, length, ◌==◌,
  Bool-cases, ==→eq, ==→ne,
}
use mathlib.Core.Path.{subst}
use ecp_c.System.{Thread, System, Board, active, put_thread}
use ecp_c.Context.Switch.{IsReady}
use ecp_c.Scheduler.{refresh, thread_yield}
use ecp_c.Scheduler.Ring.{Walk-eq, link}
use ecp_c.Scheduler.Elect.{In, AllLive, IsLive, priority_of}
use ecp_c.Scheduler.Yield.{IsRing}
use ecp_c.Scheduler.Preempt.{IsCalm, IsAwake, yield_switches}

-- The priority of each other thread of the queue, and of main, is below that of `t`.
pub record IsAbove (s : System) (ws : List ℕ) (x : ℕ) (t : Thread) : Type 0 where
  pub others :
      (y : ℕ) (u : Thread) → In y ws → y ≢ x → s.threads y ≡ some u → u.priority < t.priority
  pub main : priority_of (s.threads s.thread_main_inf) < t.priority

pub thread_yield-highest :
    (b : Board) (fuel : ℕ) (s : System) (ws : List ℕ) (x : ℕ) {this t : Thread}
    → IsRing s ws
    → length ws < fuel
    → s.thread_list ≢ 0
    → IsReady b s
    → s.threads s.current_thread ≡ some this
    → IsCalm s
    → In x ws
    → s.threads x ≡ some t
    → (refresh s t).status ≡ active
    → IsAbove s ws x t
    → (s' : System) × (thread_yield b fuel s ≡ some s')
      × (s'.current_thread ≡ x)
      × (s'.threads x ≡ some (refresh s t))
thread_yield-highest b fuel s ws x {this} {t} ring enough listed ready live calm i at_x act above =
    let (s', run, among, best, _, _, woken) =
      yield_switches b fuel s ws {this = this} ring enough listed ready live calm in
    (s', run, runs s'.current_thread among (best x t i at_x act), woken x t i at_x)
  where
    runs :
        (e : ℕ)
        → (e ≡ s.thread_main_inf) ⊎ (In e ws × IsAwake s e)
        → t.priority ≤ priority_of (s.threads e)
        → e ≡ x
    runs e (inl main) high = absurd (too_low (rw main at high))
      where
        too_low : t.priority ≤ priority_of (s.threads s.thread_main_inf) → ⊥
        too_low h = let low = above.main in omega (arith, low)
    runs e (inr (j, (u, at_e, _))) high = elim (Bool-cases (e == x)) [
      | inl same ↦ ==→eq _ _ same
      | inr other ↦ absurd (too_low (above.others e u j (==→ne _ _ other) at_e) (rw at_e at high))
    ]
      where
        too_low : u.priority < t.priority → t.priority ≤ u.priority → ⊥
        too_low g h = omega arith

-- A control block is written back with its link and, for `IsCalm`, its stack pointer and `ats_active`.
module _ (s : System) (x : ℕ) {t : Thread} (t' : Thread) (at_x : s.threads x ≡ some t)
    (same : t'.runq_next ≡ t.runq_next) where
  link-put : (q : ℕ) → link (put_thread s x t') q ≡ link s q
  link-put q = ground arith

  IsLive-put : (q : ℕ) → IsLive s q → IsLive (put_thread s x t') q
  IsLive-put q (u, at_q) = elim (Bool-cases (q == x)) [
    | inl here ↦ (t', ground (arith, here))
    | inr away ↦ (u, ground (arith, away))
  ]

  AllLive-put : (xs : List ℕ) → AllLive s xs → AllLive (put_thread s x t') xs
  AllLive-put [] all = tt
  AllLive-put (y ∷ ys) (l, all) = (IsLive-put y l, AllLive-put ys all)

  pub put-IsRing : (ws : List ℕ) → IsRing s ws → IsRing (put_thread s x t') ws
  put-IsRing ws r = record {
    walk =
        Walk-eq s (put_thread s x t') s.current_thread (ws ++ s.current_thread ∷ []) link-put
          r.walk;
    others = r.others;
    all_live = AllLive-put (ws ++ s.current_thread ∷ []) r.all_live;
    distinct = r.distinct;
    main_live = IsLive-put s.thread_main_inf r.main_live;
  }

  pub put-IsCalm :
      t'.sp ≡ t.sp → t'.ats_active ≡ t.ats_active → IsCalm s → IsCalm (put_thread s x t')
  put-IsCalm sp ats calm q u at_q = elim (Bool-cases (q == x)) [
    | inl here ↦
        let known : t' ≡ u = ground arith in
        let before = calm x t at_x in
        subst (λ v. (v.sp + 37 < 2 ^ 16) × (v.ats_active ≢ 1)) known (rw (sp, ats) before)
    | inr away ↦ calm q u (ground (arith, away))
  ]
