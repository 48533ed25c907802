-- ===== src/Kernel2/Period/Releases.antt =====
-- The releases of a periodic thread do not drift, over runs of its loop and of the kernel.
use ecp_c.Base.{
  ℕ, ◌+◌, ◌*◌, ◌%◌, ◌^◌, ◌<◌, ◌≡◌, refl, sym, ap, ◌∙◌, List, ◌∷◌, some, some_inj, arith, not, ◌==◌,
  leb, add32, sub32, Ensures, Ensures-bind, Ensures-lookup, Ensures-if, Ensures-some,
}
use ecp_c.System.{Board, deadline_miss, cost_overun}
use ecp_c.Kernel2.State.{Thread, System, Upcalls, period_miss, put_thread}
use ecp_c.Kernel2.Call.{Call}
use ecp_c.Kernel2.Pattern.{
  Point, await_release, raise, check_limits, next_stage, run_cycle, periodic_pattern,
}
use ecp_c.Kernel2.Loop.{Loop, count_cycle, release_of}
use ecp_c.Kernel2.Period.{IsPeriodic, UpcallsLeave, Periodic-same}
use ecp_c.Kernel2.Period.Calls.{
  get_current_cost_ticks-Periodic, tick_sleep-Periodic, thread_block-Periodic,
}
use ecp_c.Kernel2.Period.Runs.{AllPreserve, call-Periodic}

later :
    (p : Point) (n c period : ℕ)
    → ((c + count_cycle p 0 * period) % 2 ^ 32 + n * period) % 2 ^ 32
      ≡ (c + count_cycle p n * period) % 2 ^ 32
later Point.entered n c period = omega arith
later Point.started n c period = omega arith
later (Point.released counter) n c period = omega arith
later (Point.worked counter) n c period = grind arith

-- The release at a point is the `n`-th after `c`.
abbrev pub Follows : (th period c n : ℕ) → Point × System → Type 0
Follows th period c n r =
    (release_of r.0 ≡ some ((c + n * period) % 2 ^ 32)) × IsPeriodic th period r.1

module _ (b : Board) (u : Upcalls) (fuel : ℕ) {th period : ℕ} where
  await_release-Periodic :
      (s : System)
      → IsPeriodic th period s
      → Ensures (await_release b u fuel s) (IsPeriodic th period)
  unfolding await_release
  await_release-Periodic s k = Ensures-lookup (s.threads s.current_thread) λ this here.
      Ensures-if (not (this.block_pattern == 0)) (thread_block-Periodic b fuel s k) (Ensures-some k)

  module _ (leave : UpcallsLeave u th) where
    raise-Periodic :
        (this : ℕ) (limit used : Thread → ℕ) (e : ℕ) (s : System)
        → IsPeriodic th period s
        → Ensures (raise b u fuel this limit used e s) (IsPeriodic th period)
    raise-Periodic this limit used e s k = Ensures-lookup (s.threads this) λ t here.
        Ensures-if (leb (limit t) (used t))
          (record { holds = λ s' ran. leave.handler t.error_handler e period s s' ran k })
          (Ensures-some k)

    pub check_limits-Periodic :
        (this ticks : ℕ) (s : System)
        → IsPeriodic th period s
        → Ensures (check_limits b u fuel this ticks s) (IsPeriodic th period)
    unfolding check_limits
    check_limits-Periodic this ticks s k = Ensures-lookup (s.threads this) λ t here.
        Ensures-if (t.error_handler == 0) (Ensures-some k) (
          Ensures-bind _
            (raise-Periodic this (λ t. t.min_period_ticks) (λ t. ticks) period_miss s k)
            λ s1 ran1 k1.
              Ensures-bind _
                (raise-Periodic this (λ t. t.max_deadline_ticks) (λ t. ticks) deadline_miss s1 k1)
                λ s2 ran2 k2.
                  raise-Periodic this (λ t. t.max_cost_ticks) (λ t. t.current_cost_ticks)
                    cost_overun s2 k2)

    next_stage-Periodic :
        (counter finished : ℕ) (s : System)
        → IsPeriodic th period s
        → Ensures
            (next_stage b u fuel th counter finished s)
            (λ r. (r.0 ≡ add32 counter period) × IsPeriodic th period r.1)
    unfolding next_stage
    next_stage-Periodic counter finished s k = Ensures-lookup (s.threads th) λ t here.
        let (v, at_th, known) = k.block in
        let one : v ≡ t = ground arith in
        let same : t.min_period_ticks ≡ period = ap (λ x. x.min_period_ticks) (sym one) ∙ known in
        Ensures-bind _ (tick_sleep-Periodic b fuel _ s k)
          λ s' ran k'. Ensures-some (ap (add32 counter) same, k')

    run_cycle-Periodic :
        (counter : ℕ) (s : System)
        → IsPeriodic th period s
        → Ensures
            (run_cycle b u fuel th counter s)
            (λ r. (r.0 ≡ add32 counter period) × IsPeriodic th period r.1)
    unfolding run_cycle
    run_cycle-Periodic counter s k = Ensures-lookup (s.threads s.current_thread) λ current here.
        let s1 = put_thread s s.current_thread (record current { current_cost_ticks = 0 }) in
        let k1 : IsPeriodic th period s1 = Periodic-same k s.current_thread _ here refl in
        Ensures-lookup (s1.threads th) λ t there.
          Ensures-lookup (u.executor t.executor s1) λ s2 ran.
            let k2 = leave.executor t.executor period s1 s2 ran k1 in
            Ensures-bind _ (get_current_cost_ticks-Periodic s2 k2) λ r measured k3.
              Ensures-bind _ (check_limits-Periodic th (sub32 s2.tick_counter_us counter) r.1 k3)
                λ s4 checked k4. next_stage-Periodic counter s2.tick_counter_us s4 k4

    periodic_pattern-Follows :
        (p : Point) (s : System) {c : ℕ}
        → release_of p ≡ some c
        → c < 2 ^ 32
        → IsPeriodic th period s
        → Ensures
            (periodic_pattern b u fuel th p s)
            (λ r. Follows th period c (count_cycle r.0 0) r)
    unfolding periodic_pattern
    periodic_pattern-Follows Point.entered s at small k = absurd (ground arith)
    periodic_pattern-Follows Point.started s at small k = absurd (ground arith)
    periodic_pattern-Follows (Point.released counter) s {c} at small k =
        Ensures-bind _ (run_cycle-Periodic counter s k) λ r ran cycle.
          let same : counter ≡ c = some_inj at in
          let next : r.0 ≡ add32 counter period = cycle.0 in
          Ensures-some (ap some (omega arith), cycle.1)
    periodic_pattern-Follows (Point.worked counter) s {c} at small k =
        Ensures-bind _ (await_release-Periodic s k) λ s' ran k'.
          let same : counter ≡ c = some_inj at in Ensures-some (ap some (omega arith), k')

    pub releases_from :
        (n c : ℕ) (cs : List Call) (p q : Point) (s s' : System)
        → release_of p ≡ some c
        → c < 2 ^ 32
        → IsPeriodic th period s
        → AllPreserve th cs
        → Loop b u fuel th n cs p s q s'
        → Follows th period c n (q, s')
    releases_from n c cs p q s s' at small k kept Loop.stop = (at ∙ ap some (omega arith), k)
    releases_from n c cs p q s s' at small k kept
          (Loop.go_on {n = n'} {p1 = p1} {s1 = s1} runs ran loop) =
        let (at1, k1) = (periodic_pattern-Follows p s at small k).holds (p1, s1) ran in
        let c1 = (c + count_cycle p1 0 * period) % 2 ^ 32 in
        let (at', k') = releases_from n' c1 cs p1 q s1 s' at1 (omega arith) k1 kept loop in
        (at' ∙ ap some (later p1 n' c period), k')
    releases_from n c (d ∷ cs) p q s s' at small k kept (Loop.other {s1 = s1} ran loop) =
        let (first, rest) = kept in
        let k1 = (call-Periodic b u fuel d s first k).holds s1 ran in
        releases_from n c cs p q s1 s' at small k1 rest loop
