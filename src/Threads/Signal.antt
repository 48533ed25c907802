-- ===== src/Threads/Signal.antt =====
-- The release queue of a sporadic thread: its bound, its rate, and what an error leaves.
use ecp_c.Base.{ℕ, ◌+◌, ◌*◌, ◌/◌, ◌%◌, ◌^◌, ◌≤◌, ◌<◌, ◌≡◌, ◌≢◌, arith, sub32}
use ecp_c.System.{Thread}
use ecp_c.Threads.{arrival, mit_violation, overflow_violation}

-- The policy byte's two halves.
abbrev pub policy_mit : Thread → ℕ
policy_mit th = th.mit_policy % 16

abbrev pub policy_ov : Thread → ℕ
policy_ov th = th.mit_policy / 16 % 16 * 16

-- Unless the overflow policy is SAVE, the pending releases of a thread that are at or below
-- `queue_length_max + 1`, a number below 2 ^ 31, stay so under any arrival.
pub arrival_bounded :
    (now : ℕ) (th : Thread)
    → th.queue_length_max + 1 < 2 ^ 31
    → th.queue_pending ≤ th.queue_length_max + 1
    → policy_ov th ≢ 0x10
    → (arrival now th).1.queue_pending ≤ th.queue_length_max + 1
unfolding arrival mit_violation overflow_violation
arrival_bounded now th small fits pol = ground arith

-- The bound of `queue_length_max` itself is passed: with that many releases pending, fewer than
-- 2 ^ 31 - 1, an arrival after the minimum interarrival time is still queued, and answered with 0.
pub arrival_overfills :
    (now : ℕ) (th : Thread)
    → th.queue_length_max + 1 < 2 ^ 31
    → th.queue_pending ≡ th.queue_length_max
    → th.min_period_ticks < sub32 now th.queue_last_input
    → ((arrival now th).0 ≡ 0) × ((arrival now th).1.queue_pending ≡ th.queue_length_max + 1)
unfolding arrival mit_violation overflow_violation
arrival_overfills now th small full late = ground arith

-- An arrival that is answered with an error leaves the control block as it was.
arrival_error_unchanged : (now : ℕ) (th : Thread) → (arrival now th).0 ≢ 0 → (arrival now th).1 ≡ th
unfolding arrival mit_violation overflow_violation
arrival_error_unchanged now th bad = ground arith
