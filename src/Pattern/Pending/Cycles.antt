-- ===== src/Pattern/Pending/Cycles.antt =====
-- A sporadic or aperiodic thread works no more cycles than it was signalled, over runs of its loop and
-- of the library.
use ecp_c.Base.{
  ℕ, ◌+◌, ◌≤◌, ◌<◌, ◌^◌, ◌≡◌, ◌≢◌, refl, sym, List, ◌∷◌, some, arith, Ensures, Ensures-mono,
}
use mathlib.Core.Path.{subst}
use ecp_c.System.{Thread, System, Board}
use ecp_c.Lifecycle.Call.{Call, call}
use ecp_c.Pattern.{Point}
use ecp_c.Pattern.Loop.{Loop, count_cycle}
use ecp_c.Pattern.Pending.{HasPending, HandlersLeave}
use ecp_c.Pattern.Pending.Runs.{
  Preserves, AllPreserve, signals, count_signal, count_signal_plus, suc-count_signal, call-Pending,
}
use ecp_c.Pattern.Pending.Stretch.{ExecutorsLeave, Bounds, periodic_pattern-Reaches}

count_cycle_least :
    (p : Point) (m n k j : ℕ) → count_cycle p m ≡ n → k ≤ m + j → count_cycle p k ≤ n + j
count_cycle_least Point.entered m n k j e few = omega (arith, e, few)
count_cycle_least Point.waiting m n k j e few = omega (arith, e, few)
count_cycle_least Point.worked m n k j e few = omega (arith, e, few)

least_count_cycle : (p : Point) (m n : ℕ) → count_cycle p m ≡ n → m ≤ n
least_count_cycle Point.entered m n e = omega (arith, e)
least_count_cycle Point.waiting m n e = omega (arith, e)
least_count_cycle Point.worked m n e = omega (arith, e)

module _ (b : Board) (fuel this : ℕ) (null : this ≢ 0) (leave : HandlersLeave b this)
    (executors : ExecutorsLeave b this) where
  call-Bounds :
      (c : Call) (n : ℕ) (p : Point) (s : System)
      → n + 1 < 2 ^ 31
      → Preserves this c
      → Bounds this p n s
      → Ensures (call b fuel c s) (Bounds this p (count_signal this c n))
  call-Bounds c n Point.entered s small kept k =
      call-Pending b fuel null leave c s (omega (arith, small)) kept k
  call-Bounds c n Point.waiting s small kept k =
      call-Pending b fuel null leave c s (omega (arith, small)) kept k
  call-Bounds c n Point.worked s small kept k =
      Ensures-mono
        (λ s' k'. subst (λ h. HasPending this 1 h s') (sym (suc-count_signal this c n)) k')
        (call-Pending b fuel null leave c s (omega (arith, small)) kept k)

  cycles_left :
      (m n : ℕ) (cs : List Call) (p q : Point) (s s' : System)
      → m + signals this cs + 1 < 2 ^ 31
      → AllPreserve this cs
      → Bounds this p m s
      → Loop b fuel this n cs p s q s'
      → n ≤ m + signals this cs
  cycles_left m n cs p q s s' small kept k Loop.stop = omega arith
  cycles_left m n cs p q s s' small kept k (Loop.go_on {n = n'} {p1 = p1} {s1 = s1} runs ran loop) =
      let reaches =
        periodic_pattern-Reaches b fuel this leave executors m p s (omega (arith, small)) runs k in
      let (m1, e, k1) = reaches.holds (p1, s1) ran in
      let fewer = least_count_cycle p1 m1 m e in
      let rest = cycles_left m1 n' cs p1 q s1 s' (omega (arith, fewer, small)) kept k1 loop in
      count_cycle_least p1 m1 m n' (signals this cs) e rest
  cycles_left m n (c ∷ cs) p q s s' small kept k (Loop.other {s1 = s1} ran loop) =
      let (first, later) = kept in
      let k1 = (call-Bounds c m p s (omega (arith, small)) first k).holds s1 ran in
      let same = count_signal_plus this c m (signals this cs) in
      let rest =
        cycles_left (count_signal this c m) n cs p q s1 s' (omega (arith, small, same)) later k1
          loop in
      omega (arith, rest, same)

-- A sporadic or aperiodic thread, from the entry of `periodic_pattern` or its test "The thread blocks
-- itself" on, with whatever calls of the library by others and whatever interrupts between its
-- stretches: it has worked no more cycles than the releases that were pending and the signals it was
-- sent, where these are fewer than 2^31 - 1. No call removes it or makes a control block in its
-- place, and the error handlers and what the threads work do not touch its releases.
pub cycles_signalled :
    (b : Board) (fuel this n : ℕ) (cs : List Call) (p q : Point) (s s' : System) {t : Thread}
    → this ≢ 0
    → HandlersLeave b this
    → ExecutorsLeave b this
    → p ≢ Point.worked
    → s.threads this ≡ some t
    → t.block_pattern ≢ 0
    → t.queue_pending + signals this cs + 1 < 2 ^ 31
    → AllPreserve this cs
    → Loop b fuel this n cs p s q s'
    → n ≤ t.queue_pending + signals this cs
cycles_signalled b fuel this n cs p q s s' {t} null leave executors before at_this waits small kept
      loop =
    cycles_left b fuel this null leave executors t.queue_pending n cs p q s s' small kept
      (start p before) loop
  where
    start : (p : Point) → p ≢ Point.worked → Bounds this p t.queue_pending s
    start Point.entered ne = record { block = (t, at_this, waits, omega arith, omega arith) }
    start Point.waiting ne = record { block = (t, at_this, waits, omega arith, omega arith) }
    start Point.worked ne = absurd (ne refl)
