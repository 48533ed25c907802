-- ===== src/Pattern/Pending/Signal.antt =====
-- A signal on the pending releases of a thread.
use ecp_c.Base.{
  ℕ, suc, ◌+◌, ◌<◌, ◌^◌, ◌≡◌, ◌⊎◌, sym, ap, ◌∙◌, inl, inr, Option, some, arith, Bool-cases, ◌==◌,
  ==→eq, ==→ne, if◌then◌else◌, add32, Ensures, Ensures-bind, Ensures-lookup, Ensures-if,
  Ensures-some,
}
use ecp_c.System.{Thread, System, Board, put_thread, update}
use ecp_c.Threads.{arrival, mit_violation, overflow_violation, thread_unblock, thread_signal}
use ecp_c.Pattern.Pending.{Pending, HasPending, HandlersLeave, Pending-other}
use ecp_c.Pattern.Pending.Calls.{thread_unblock-Pending}

-- An arrival adds a release, or none.
arrival-pending :
    (now : ℕ) (t : Thread)
    → ((arrival now t).1.queue_pending ≡ t.queue_pending)
      ⊎ ((arrival now t).1.queue_pending ≡ add32 t.queue_pending 1)
unfolding arrival mit_violation overflow_violation
arrival-pending now t = ground arith

arrival-pattern : (now : ℕ) (t : Thread) → (arrival now t).1.block_pattern ≡ t.block_pattern
unfolding arrival mit_violation overflow_violation
arrival-pattern now t = ground arith

module _ {th low high : ℕ} where
  Pending-more : {m : ℕ → Option Thread} → Pending th low high m → Pending th low (suc high) m
  Pending-more k =
      let (t, at_th, waits, many, few) = k.block in
      record { block = (t, at_th, waits, many, omega (arith, few)) }

  arrival-Pending :
      (s : System) (p : ℕ) {t : Thread} (now : ℕ)
      → high + 1 < 2 ^ 32
      → HasPending th low high s
      → s.threads p ≡ some t
      → Pending th low
          (if p == th then suc high else high)
          (update s.threads p (some (arrival now t).1))
  arrival-Pending s p {t} now small k at_p = elim (Bool-cases (p == th)) [
    | inr ne ↦ rw ne (Pending-other k p _ (λ e. ==→ne p th ne (sym e)))
    | inl here ↦
        let (u, at_th, waits, many, few) = k.block in
        let there : p ≡ th = ==→eq p th here in
        let known : u ≡ t = ground arith in
        let same : (arrival now t).1.block_pattern ≡ u.block_pattern =
          arrival-pattern now t ∙ ap (λ x. x.block_pattern) (sym known) in
        let before : t.queue_pending ≡ u.queue_pending = ap (λ x. x.queue_pending) (sym known) in
        rw here (record {
          block = (
            (arrival now t).1,
            ground arith,
            (λ e. waits (sym same ∙ e)),
            elim (arrival-pending now t) [
              | inl e ↦ omega (arith, e, before, many, few)
              | inr e ↦ omega (arith, e, before, many, few, small)
            ],
            elim (arrival-pending now t) [
              | inl e ↦ omega (arith, e, before, many, few)
              | inr e ↦ omega (arith, e, before, many, few, small)
            ],
          );
        })
  ]

  pub thread_signal-Pending :
      (b : Board)
      → HandlersLeave b th
      → (fuel p : ℕ) (s : System) → high + 1 < 2 ^ 32
      → HasPending th low high s
      → Ensures
          (thread_signal b fuel p s)
          (λ r. HasPending th low (if p == th then suc high else high) r.1)
  unfolding thread_signal
  thread_signal-Pending b leave fuel p s small k =
      Ensures-if (p == 0)
        (Ensures-some
          (elim (Bool-cases (p == th)) [ inl e ↦ rw e (Pending-more k) | inr e ↦ rw e k ]))
        (Ensures-lookup (s.threads p) λ t at_p.
          let now = s.global_thread_tick_counter in
          Ensures-bind (thread_unblock b fuel p (put_thread s p (arrival now t).1))
            (thread_unblock-Pending b leave fuel p _ (arrival-Pending s p now small k at_p))
            λ s' ran k'. Ensures-some k')
