-- ===== src/Lifecycle/Rest/Yield.antt =====
-- `thread_yield` does not run a thread that rests.
use ecp_c.Base.{
  ℕ, zero, suc, ◌+◌, ◌-◌, ◌*◌, ◌%◌, ◌≤◌, ◌≡◌, ◌≢◌, refl, sym, ap, ◌∙◌, inl, inr, some, arith,
  Bool-cases, ◌==◌, ==→eq, ==→ne, if◌then◌else◌, Ensures, Ensures-bind, Ensures-lookup, Ensures-if,
  Ensures-test, Ensures-mono, Ensures-some, Ensures-none,
}
use mathlib.Core.Path.{subst}
use ecp_c.System.{Thread, System, Board, put_thread, active, slept, ats_signal}
use ecp_c.Context.{change_high, do_switch}
use ecp_c.Scheduler.{
  wake, renew, refresh, elect, visit, yield_loop, successor, account, deliver_ats, thread_start,
  thread_yield,
}
use ecp_c.Lifecycle.Lands.{elect-either, do_switch-current}
use ecp_c.Lifecycle.Rest.{Same, Sits, Rests, HandlersSpare, Sits-frame, Sits-other, Sits-Same}

-- The walk of the run queue wakes no thread that is to go on sleeping.
refresh-Same :
    (s : System) (t : Thread)
    → t.status ≢ active
    → (t.status ≡ slept
        → (t.carry_ticks_to_wait ≡ 0) × (s.global_thread_tick_counter ≤ t.ticks_to_wait))
    → Same t (refresh s t)
unfolding refresh wake renew
refresh-Same s t idle time = elim (Bool-cases (t.status == slept)) [
  | inl e ↦
      let (carry, early) = time (==→eq t.status slept e) in
      record {
        status = ground (arith, carry, early);
        semaphore = ground (arith, carry, early);
        until = ground (arith, carry, early);
        carry = ground (arith, carry, early);
      }
  | inr n ↦ record {
    status = ground arith;
    semaphore = ground arith;
    until = ground arith;
    carry = ground arith;
  }
]

elect-idle :
    (s : System) (p : ℕ) (t : Thread) (c : ℕ)
    → Ensures (elect s p t c) (λ c'. t.status ≢ active → c' ≡ c)
unfolding elect
elect-idle s p t c =
    Ensures-test (t.status == active)
      (λ e. record { holds = λ c' ran idle. absurd (idle (==→eq t.status active e)) })
      (λ n. Ensures-some (λ _. refl))

module _ {th : ℕ} {t0 : Thread} {n : ℕ} where
  -- The control block of the thread, as one has found it.
  pub found : {s : System} {t : Thread} → Sits th t0 n s → s.threads th ≡ some t → Same t0 t
  found {s} {t} k at_th = let (u, at_u, same) = k.block in subst (Same t0) (ground arith) same

  refresh-rest :
      {s : System} {t : Thread} → Sits th t0 n s → s.threads th ≡ some t → Same t (refresh s t)
  refresh-rest {s} {t} k at_th =
      let same = found k at_th in
      refresh-Same s t (λ e. k.idle (sym same.status ∙ e))
        (λ e.
          let (carry, early) = k.time (sym same.status ∙ e) in
          (same.carry ∙ carry, omega (arith, early, same.until)))

  visit-Sits :
      (s : System) (p c : ℕ)
      → Sits th t0 n s
      → c ≢ th
      → Ensures
          (visit s p c)
          (λ r. Sits th t0 n r.0 × (r.0.current_thread ≡ s.current_thread) × (r.1 ≢ th))
  unfolding visit
  visit-Sits s p c k other = Ensures-lookup (s.threads p) λ t at_p.
      let s1 = put_thread (record s { next_thread = p }) p (refresh s t) in
      Ensures-lookup (elect s1 p (refresh s t) c) λ c' ran. elim (Bool-cases (th == p)) [
        | inl here ↦
            let same = refresh-rest k (ap s.threads (==→eq th p here) ∙ at_p) in
            let idle : (refresh s t).status ≢ active = λ e. k.idle (
              sym (found k (ap s.threads (==→eq th p here) ∙ at_p)).status ∙ sym same.status ∙ e) in
            let kept : c' ≡ c = (elect-idle s1 p (refresh s t) c).holds c' ran idle in
            Ensures-some (
              Sits-Same k s1 refl refl p (refresh s t) at_p same refl,
              refl,
              (λ e. other (sym kept ∙ e)),
            )
        | inr ne ↦
            let away = ==→ne th p ne in
            Ensures-some (
              Sits-other k s1 refl refl p _ refl away,
              refl,
              elim ((elect-either s1 p (refresh s t) c).holds c' ran) [
                | inl e ↦ (λ d. other (sym e ∙ d))
                | inr e ↦ (λ d. away (sym d ∙ e))
              ],
            )
      ]

  yield_loop-Sits :
      (fuel : ℕ) (s : System) (p c : ℕ)
      → Sits th t0 n s
      → c ≢ th
      → Ensures
          (yield_loop fuel s p c)
          (λ r. Sits th t0 n r.0 × (r.0.current_thread ≡ s.current_thread) × (r.1 ≢ th))
  unfolding yield_loop
  yield_loop-Sits zero s p c k other = Ensures-none
  yield_loop-Sits (suc fuel) s p c k other = Ensures-lookup (s.threads p) λ t at_p.
      let next = successor s t in
      Ensures-bind (visit s next c) (visit-Sits s next c k other) λ r ran found.
        let (k1, current, away) = found in
        Ensures-if (next == s.current_thread) (Ensures-some (k1, current, away)) (
          Ensures-mono (λ r' rest. let (k2, same, off) = rest in (k2, same ∙ current, off))
            (yield_loop-Sits fuel r.0 next r.1 k1 away))

  account-Sits : (s : System) → Sits th t0 n s → Ensures (account s) (Sits th t0 n)
  unfolding account
  account-Sits s k = Ensures-lookup (s.threads s.current_thread) λ t here. Ensures-some (
      Sits-Same k _ refl refl s.current_thread _ here
        (record {
          status = ground arith;
          semaphore = ground arith;
          until = ground arith;
          carry = ground arith;
        })
        refl)

  module _ (b : Board) where
    change_high-Sits : (s : System) → Sits th t0 n s → Ensures (change_high b s) (Sits th t0 n)
    unfolding change_high
    change_high-Sits s k = Ensures-lookup (s.threads s.current_thread) λ t here.
        let this = record t {
          sp =
              s.cpu.ram (b.px_current_tcb_aux + 1) % 256 * 256
              + s.cpu.ram b.px_current_tcb_aux % 256;
        } in
        Ensures-lookup ((put_thread s s.current_thread this).threads s.next_thread) λ next there.
          Ensures-some (
            Sits-Same k _ refl refl s.current_thread this here
              (record { status = refl; semaphore = refl; until = refl; carry = refl }) refl)

    do_switch-Sits : (s : System) → Sits th t0 n s → Ensures (do_switch b s) (Sits th t0 n)
    unfolding do_switch
    do_switch-Sits s k =
        Ensures-bind (change_high b _) (change_high-Sits _ (Sits-frame k _ refl refl refl))
          λ s' ran k'. Ensures-some (Sits-frame k' _ refl refl refl)

    module _ (spare : HandlersSpare b th) where
      deliver_ats-Rests :
          (fuel m : ℕ) (s : System)
          → Rests th t0 n s
          → Ensures (deliver_ats b fuel m s) (Rests th t0 n)
      unfolding deliver_ats
      deliver_ats-Rests fuel zero s k = Ensures-none
      deliver_ats-Rests fuel (suc m) s k = Ensures-lookup (s.threads s.current_thread) λ this here.
          let this' = record this { ats_pending = this.ats_pending - 1 } in
          let s1 = put_thread s s.current_thread this' in
          let k1 : Rests th t0 n s1 = record {
            sits = Sits-other k.sits s1 refl refl s.current_thread _ refl (λ e. k.off (sym e));
            off = k.off;
          } in
          Ensures-if (this.ats_pending == 0) (Ensures-some k) (
            Ensures-bind
              (if this.error_handler == 0
                then some s1
                else b.error_handler this.error_handler ats_signal s1)
              (Ensures-if (this.error_handler == 0) (Ensures-some k1)
                (record { holds = λ s2 e. spare this.error_handler ats_signal t0 n s1 s2 e k1 }))
              λ s2 e k2. deliver_ats-Rests fuel m s2 k2)

      pub thread_start-Rests :
          (fuel : ℕ) (s : System) (next : ℕ)
          → Sits th t0 n s
          → next ≢ th
          → Ensures (thread_start b fuel s next) (Rests th t0 n)
      unfolding thread_start
      thread_start-Rests fuel s next k away =
          Ensures-bind (do_switch b _) (do_switch-Sits _ (Sits-frame k _ refl refl refl))
            λ s1 ran k1.
              let at : s1.current_thread ≡ next = (do_switch-current b _).holds s1 ran in
              let rest : Rests th t0 n s1 = record { sits = k1; off = λ e. away (sym at ∙ e) } in
              Ensures-lookup (s1.threads s1.current_thread) λ this here.
                Ensures-if (this.ats_active == 1) (deliver_ats-Rests fuel fuel s1 rest)
                  (Ensures-some rest)

      -- The thread may be the one that calls, if there is a run queue.
      pub thread_yield-Rests :
          (fuel : ℕ) (s : System)
          → Sits th t0 n s
          → (s.thread_list ≡ 0 → s.current_thread ≢ th)
          → Ensures (thread_yield b fuel s) (Rests th t0 n)
      unfolding thread_yield
      thread_yield-Rests fuel s k away =
          Ensures-test (s.thread_list == 0)
            (λ e. Ensures-some (record { sits = k; off = away (==→eq s.thread_list 0 e) }))
            (λ queue.
              Ensures-bind (yield_loop fuel s s.current_thread s.thread_main_inf)
                (yield_loop-Sits fuel s s.current_thread s.thread_main_inf k k.not_main)
                λ r ran found.
                  let (k1, current, off) = found in
                  Ensures-bind (account r.0) (account-Sits r.0 k1)
                    λ s2 charged k2. thread_start-Rests fuel s2 r.1 k2 off)
