-- ===== src/Scheduler/Signals.antt =====
-- The delivery of ATS signals in `thread_start`.
use ecp_c.Base.{
  ℕ, zero, suc, ◌-◌, ◌<◌, ◌≡◌, ◌≢◌, ◌+◌, refl, ◌∙◌, sym, ap, some, arith, ◌==◌, Bool-cases, inl,
  inr, ==→eq, ==→ne,
}
use ecp_c.System.{Thread, System, Board, put_thread, ats_signal, update_self}
use ecp_c.Scheduler.{deliver_ats}

-- The handler of the sketch at `h` returns from a signal, in the thread that it was called in, and leaves
-- its control block alone. `count` goes up by one with each such call, and not with a write to a control
-- block.
pub record IsCounted (b : Board) (h : ℕ) (count : System → ℕ) : Type 0 where
  pub call :
      (s : System)
      → (s' : System) × (b.error_handler h ats_signal s ≡ some s')
        × (s'.current_thread ≡ s.current_thread)
        × (s'.threads s.current_thread ≡ s.threads s.current_thread)
        × (count s' ≡ count s + 1)
  pub write : (s : System) (p : ℕ) (t : Thread) → count (put_thread s p t) ≡ count s

-- With fuel for the pending signals, and a handler that returns and leaves the control block of its
-- thread alone, the delivery ends. The handler has then been called once for each pending signal of
-- the thread that runs, as any `count` of its calls shows; no signal is pending, and the control
-- block is otherwise as it was.
pub deliver_ats_lem :
    (b : Board) (fuel n : ℕ) (s : System) (count : System → ℕ) {this : Thread}
    → IsCounted b this.error_handler count
    → this.error_handler ≢ 0
    → s.threads s.current_thread ≡ some this
    → this.ats_pending < n
    → (s' : System) × (deliver_ats b fuel n s ≡ some s')
      × (s'.current_thread ≡ s.current_thread)
      × (s'.threads s.current_thread ≡ some (record this { ats_pending = 0 }))
      × (count s' ≡ count s + this.ats_pending)
unfolding deliver_ats
deliver_ats_lem b fuel zero s count counted null here enough = absurd (omega arith)
deliver_ats_lem b fuel (suc n) s count {this} counted null here enough =
    elim (Bool-cases (this.ats_pending == 0)) [
      | inl over ↦ (
        s,
        ground arith,
        refl,
        here ∙ ap (λ p. some (record this { ats_pending = p })) (==→eq _ _ over),
        omega (arith, ==→eq _ _ over),
      )
      | inr more ↦
          let pending = ==→ne _ _ more in
          let taken : Thread = record this { ats_pending = this.ats_pending - 1 } in
          let s1 = put_thread s s.current_thread taken in
          let (s2, run, same, kept, one) = counted.call s1 in
          let back = update_self s.threads s.current_thread (some taken) in
          let (s', rest, same', done, sum) =
            deliver_ats_lem b fuel n s2 count {this = taken} counted null
              (ap s2.threads same ∙ kept ∙ back) (omega arith) in
          let before = counted.write s s.current_thread taken in
          (
            s',
            ground (arith, run, rest, null),
            same' ∙ same,
            ap s'.threads (sym same) ∙ done,
            omega (arith, sum, one, before, pending),
          )
    ]
