-- ===== src/Pattern/Pending/Stretch.antt =====
-- The stretches of `periodic_pattern`, on the pending releases of its thread.
use ecp_c.Base.{
  ℕ, Bool, suc, ◌+◌, ◌≤◌, ◌<◌, ◌^◌, ◌≡◌, ◌≢◌, refl, sym, ap, ◌∙◌, some, arith, Bool-cases, inl, inr,
  ◌==◌, ==→eq, ◌-◌, leb, false, if◌then◌else◌, sub32, Ensures, Ensures-test, Ensures-bind,
  Ensures-lookup, Ensures-if, Ensures-some,
}
use ecp_c.System.{Thread, System, Board, put_thread, deadline_miss, cost_overun}
use ecp_c.Pattern.{
  Point, must_wait, start_pattern, await_release, check_limits, next_stage, run_cycle, end_cycle,
  periodic_pattern,
}
use ecp_c.Pattern.Loop.{count_cycle}
use ecp_c.Pattern.Pending.{HasPending, HandlersLeave, Pending-same}
use ecp_c.Pattern.Pending.Calls.{
  get_current_cost_ticks-Pending, tick_sleep-Pending, thread_block-Pending,
}

-- What the threads work does not touch the releases of the thread at `th`.
abbrev pub ExecutorsLeave : Board → ℕ → Type 0
ExecutorsLeave b th =
    (f low high : ℕ) (s s' : System)
    → b.executor f s ≡ some s'
    → HasPending th low high s
    → HasPending th low high s'

module _ (b : Board) (fuel : ℕ) {th : ℕ} (leave : HandlersLeave b th) where
  start_pattern-Pending :
      {low high : ℕ} (s : System)
      → HasPending th low high s
      → Ensures (start_pattern b fuel s) (HasPending th low high)
  unfolding start_pattern
  start_pattern-Pending s k = Ensures-lookup (s.threads s.current_thread) λ this here.
      tick_sleep-Pending b leave fuel this.offset_ticks _ (
        Pending-same k s.current_thread (record this { current_cost_ticks = 0 }) here
          (record { pattern = refl; pending = refl }))

  await_release-Pending :
      {low high : ℕ} (s : System)
      → HasPending th low high s
      → Ensures (await_release b fuel s) (HasPending th low high)
  unfolding await_release
  await_release-Pending s k = Ensures-lookup (s.threads s.current_thread) λ this here.
      Ensures-if (must_wait this) (thread_block-Pending b leave fuel s k) (Ensures-some k)

  -- An error handler that is called if a limit is passed.
  raise-Pending :
      {low high : ℕ} (late : Bool) (h e : ℕ) (s : System)
      → HasPending th low high s
      → Ensures (if late then b.error_handler h e s else some s) (HasPending th low high)
  raise-Pending {low} {high} late h e s k =
      Ensures-if late (record { holds = λ s' ran. leave h e low high s s' ran k }) (Ensures-some k)

  check_limits-Pending :
      {low high : ℕ} (this started finished : ℕ) (s : System)
      → HasPending th low high s
      → Ensures (check_limits b fuel this started finished s) (HasPending th low high)
  unfolding check_limits
  check_limits-Pending this started finished s k = Ensures-lookup (s.threads this) λ t here.
      Ensures-if (t.error_handler == 0) (Ensures-some k) (
        let late = leb t.max_deadline_ticks (sub32 finished started) in
        Ensures-bind (if late then b.error_handler t.error_handler deadline_miss s else some s)
          (raise-Pending late t.error_handler deadline_miss s k)
          λ s1 ran k1. Ensures-lookup (s1.threads this) λ t1 here1.
            raise-Pending (leb t1.max_cost_ticks t1.current_cost_ticks) t1.error_handler cost_overun
              s1 k1)

  next_stage-Pending :
      {low high : ℕ} (this started finished : ℕ) (s : System)
      → HasPending th low high s
      → Ensures (next_stage b fuel this started finished s) (HasPending th low high)
  unfolding next_stage
  next_stage-Pending this started finished s k = Ensures-lookup (s.threads this) λ t here.
      Ensures-lookup (s.threads s.current_thread) λ current there.
        Ensures-if (current.block_pattern == 0x02) (Ensures-some k)
          (tick_sleep-Pending b leave fuel _ s k)

  module _ (executors : ExecutorsLeave b th) where
    run_cycle-Pending :
        {low high : ℕ} (this : ℕ) (s : System)
        → HasPending th low high s
        → Ensures (run_cycle b fuel this s) (HasPending th low high)
    unfolding run_cycle
    run_cycle-Pending {low} {high} this s k =
        Ensures-lookup (s.threads s.current_thread) λ current here.
          let s1 = put_thread s s.current_thread (record current { current_cost_ticks = 0 }) in
          let k1 : HasPending th low high s1 =
            Pending-same k s.current_thread _ here (record { pattern = refl; pending = refl }) in
          Ensures-lookup (s1.threads this) λ t there.
            Ensures-lookup (b.executor t.executor s1) λ s2 ran.
              let k2 = executors t.executor low high s1 s2 ran k1 in
              Ensures-bind _ (get_current_cost_ticks-Pending s2 k2) λ r measured k3.
                Ensures-bind _
                  (check_limits-Pending this s.global_thread_tick_counter
                    s2.global_thread_tick_counter r.1 k3)
                  λ s4 checked k4.
                    next_stage-Pending this s.global_thread_tick_counter
                      s2.global_thread_tick_counter s4 k4

-- A thread that waits for releases and does not block itself has one.
has_release :
    (t : Thread)
    → t.queue_pending < 2 ^ 31
    → t.block_pattern ≢ 0
    → must_wait t ≡ false
    → 1 ≤ t.queue_pending
has_release t small tests go = elim (Bool-cases (t.block_pattern == 0)) [
  | inl e ↦ absurd (tests (==→eq t.block_pattern 0 e))
  | inr e ↦ ground (arith, e, go, small)
]

-- At a point of the loop, with `n` cycles to come at most. Behind the work of a cycle its release is
-- still pending.
abbrev pub Bounds : (this : ℕ) → Point → ℕ → System → Type 0
Bounds this Point.worked n s = HasPending this 1 (suc n) s
Bounds this _ n s = HasPending this 0 n s

-- The point that a stretch ends at, with the cycles to come.
abbrev pub Reaches : (this n : ℕ) → Point × System → Type 0
Reaches this n r = (m : ℕ) × (count_cycle r.0 m ≡ n) × Bounds this r.0 m r.1

module _ (b : Board) (fuel this : ℕ) (leave : HandlersLeave b this)
    (executors : ExecutorsLeave b this) where
  end_cycle-Pending :
      (n : ℕ) (s : System)
      → n + 1 < 2 ^ 32
      → s.current_thread ≡ this
      → HasPending this 1 (suc n) s
      → Ensures (end_cycle s) (HasPending this 0 n)
  unfolding end_cycle
  end_cycle-Pending n s small runs k = Ensures-lookup (s.threads s.current_thread) λ t here.
      let (u, at_this, waits, many, few) = k.block in
      let known : u ≡ t = ground arith in
      let before : t.queue_pending ≡ u.queue_pending = ap (λ x. x.queue_pending) (sym known) in
      Ensures-some (record {
        block = (
          record t { queue_pending = sub32 t.queue_pending 1 },
          ground arith,
          (λ e. waits (ap (λ x. x.block_pattern) known ∙ e)),
          omega arith,
          omega (arith, many, few, before, small),
        );
      })

  -- A release is pending when the thread does not have to wait.
  released_once :
      (n : ℕ) (s : System) {t : Thread}
      → n < 2 ^ 31
      → s.threads this ≡ some t
      → must_wait t ≡ false
      → HasPending this 0 n s
      → (m : ℕ) × (suc m ≡ n) × HasPending this 1 n s
  released_once n s {t} small here go k =
      let (u, at_this, waits, many, few) = k.block in
      let known : u ≡ t = ground arith in
      let before : t.queue_pending ≡ u.queue_pending = ap (λ x. x.queue_pending) (sym known) in
      let tests : t.block_pattern ≢ 0 = λ e. waits (ap (λ x. x.block_pattern) known ∙ e) in
      let high : t.queue_pending < 2 ^ 31 = omega (arith, before, few, small) in
      let some_left : 1 ≤ t.queue_pending = has_release t high tests go in
      (
        n - 1,
        omega (arith, before, some_left, few),
        record { block = (u, at_this, waits, omega (arith, before, some_left), few) },
      )

  pub periodic_pattern-Reaches :
      (n : ℕ) (p : Point) (s : System)
      → n + 1 < 2 ^ 31
      → s.current_thread ≡ this
      → Bounds this p n s
      → Ensures (periodic_pattern b fuel this p s) (Reaches this n)
  unfolding periodic_pattern
  periodic_pattern-Reaches n Point.entered s small runs k =
      Ensures-bind (start_pattern b fuel s) (start_pattern-Pending b fuel leave s k)
        λ s' ran k'. Ensures-some (n, refl, k')
  periodic_pattern-Reaches n Point.waiting s small runs k =
      Ensures-lookup (s.threads s.current_thread) λ t here.
        Ensures-test (must_wait t)
          (λ waits.
            Ensures-bind (await_release b fuel s) (await_release-Pending b fuel leave s k)
              λ s' ran k'. Ensures-some (n, refl, k'))
          (λ go.
            let (m, e, k1) =
              released_once n s (omega (arith, small)) (ap s.threads (sym runs) ∙ here) go k in
            Ensures-bind (run_cycle b fuel this s)
              (run_cycle-Pending b fuel leave executors this s k1)
              λ s' ran k'. Ensures-some (m, e, rw e k'))
  periodic_pattern-Reaches n Point.worked s small runs k =
      Ensures-bind (end_cycle s) (end_cycle-Pending n s (omega (arith, small)) runs k)
        λ s' ran k'. Ensures-some (n, refl, k')
