-- ===== src/Lifecycle/Rest/Calls.antt =====
-- Operations of the threads that run, on a thread that rests.
use ecp_c.Base.{
  ℕ, zero, suc, ◌/◌, ◌≡◌, ◌≢◌, ◌⊎◌, refl, sym, ap, ◌∙◌, inl, inr, some, arith, Bool-cases, ◌==◌,
  ==→eq, ==→ne, ltb, add32, sle16, Ensures, Ensures-bind, Ensures-lookup, Ensures-if, Ensures-test,
  Ensures-some, Ensures-none,
}
use ecp_c.System.{Thread, System, Board, put_thread, active, blocked, us_per_tick, yield_max}
use ecp_c.Scheduler.{thread_yield}
use ecp_c.Threads.{
  arrival, mit_violation, overflow_violation, tick_sleep, thread_usleep, thread_block,
  thread_unblock, thread_signal, thread_ats_signal, thread_ats_enable, timer2_ovf,
}
use ecp_c.Semaphore.{prefer, find_waiter, thread_semaphore_p, thread_semaphore_v}
use ecp_c.Lifecycle.Rest.{Same, Sits, Rests, HandlersSpare, Sits-frame}
use ecp_c.Lifecycle.Rest.Quiet.{put_other, put-Same, put_current}
use ecp_c.Lifecycle.Rest.Yield.{found, thread_yield-Rests}

arrival-Same : (now : ℕ) (t : Thread) → Same t (arrival now t).1
unfolding arrival mit_violation overflow_violation
arrival-Same now t = record {
  status = ground arith;
  semaphore = ground arith;
  until = ground arith;
  carry = ground arith;
}

-- A waiter for the semaphore, or no one.
abbrev IsCandidate : System → ℕ → ℕ → Type 0
IsCandidate s sem c =
    (c ≡ 0) ⊎ ((t : Thread) × (s.threads c ≡ some t) × (t.blocked_semaphore ≡ sem))

prefer-IsCandidate :
    (s : System) (sem p : ℕ) (t : Thread) (c : ℕ)
    → s.threads p ≡ some t
    → IsCandidate s sem c
    → Ensures (prefer s sem p t c) (IsCandidate s sem)
unfolding prefer
prefer-IsCandidate s sem p t c at_p k =
    Ensures-test (t.blocked_semaphore == sem)
      (λ e.
        let this : IsCandidate s sem p = inr (t, at_p, ==→eq t.blocked_semaphore sem e) in
        Ensures-if (c == 0) (Ensures-some this) (
          Ensures-lookup (s.threads c) λ u at_c. elim (Bool-cases (ltb u.priority t.priority)) [
            | inl better ↦ rw better (Ensures-some this)
            | inr worse ↦ rw worse (Ensures-some k)
          ]))
      (λ n. Ensures-some k)

find_waiter-IsCandidate :
    (fuel : ℕ) (s : System) (sem p c : ℕ)
    → IsCandidate s sem c
    → Ensures (find_waiter fuel s sem p c) (IsCandidate s sem)
unfolding find_waiter
find_waiter-IsCandidate zero s sem p c k = Ensures-none
find_waiter-IsCandidate (suc fuel) s sem p c k =
    Ensures-if (p == s.thread_main_inf) (Ensures-some k) (
      Ensures-lookup (s.threads p) λ t at_p.
        Ensures-bind (prefer s sem p t c) (prefer-IsCandidate s sem p t c at_p k)
          λ c' ran k'. find_waiter-IsCandidate fuel s sem t.runq_next c' k')

module _ {th : ℕ} {t0 : Thread} {n : ℕ} where
  module _ (b : Board) (spare : HandlersSpare b th) (fuel : ℕ) where
    pub yield-Rests :
        (s : System) → Rests th t0 n s → Ensures (thread_yield b fuel s) (Rests th t0 n)
    yield-Rests s k = thread_yield-Rests b spare fuel s k.sits (λ e. k.off)

    pub tick_sleep-Rests :
        (ticks : ℕ) (s : System)
        → Rests th t0 n s
        → Ensures (tick_sleep b fuel ticks s) (Rests th t0 n)
    unfolding tick_sleep
    tick_sleep-Rests ticks s k =
        Ensures-lookup (s.threads s.current_thread) λ this here. yield-Rests _ (put_current s _ k)

    pub thread_usleep-Rests :
        (us : ℕ) (s : System)
        → Rests th t0 n s
        → Ensures (thread_usleep b fuel us s) (Rests th t0 n)
    unfolding thread_usleep
    thread_usleep-Rests us s k =
        Ensures-lookup (s.threads s.current_thread)
          λ this here. tick_sleep-Rests (us / us_per_tick) _ (put_current s _ k)

    pub thread_block-Rests :
        (s : System) → Rests th t0 n s → Ensures (thread_block b fuel s) (Rests th t0 n)
    unfolding thread_block
    thread_block-Rests s k = Ensures-lookup (s.threads s.current_thread) λ this here.
        Ensures-if (this.status == active) (yield-Rests _ (put_current s _ k)) (Ensures-some k)

    pub thread_unblock-Rests :
        (p : ℕ) (s : System)
        → (p ≢ th) ⊎ (t0.status ≢ blocked)
        → Rests th t0 n s
        → Ensures (thread_unblock b fuel p s) (Rests th t0 n)
    unfolding thread_unblock
    thread_unblock-Rests p s spared k = Ensures-lookup (s.threads p) λ t at_p.
        Ensures-test (t.status == blocked)
          (λ e.
            let other : th ≢ p = elim spared [
              | inl ne ↦ (λ d. ne (sym d))
              | inr held ↦ (λ d.
                  held
                    (sym (found k.sits (ap s.threads d ∙ at_p)).status ∙ ==→eq t.status blocked e))
            ] in
            yield-Rests _ (put_other s p _ k other))
          (λ m. Ensures-some k)

    pub thread_signal-Rests :
        (p : ℕ) (s : System)
        → (p ≢ th) ⊎ (t0.status ≢ blocked)
        → Rests th t0 n s
        → Ensures (thread_signal b fuel p s) (λ r. Rests th t0 n r.1)
    unfolding thread_signal
    thread_signal-Rests p s spared k = Ensures-if (p == 0) (Ensures-some k) (
        Ensures-lookup (s.threads p) λ t at_p.
          let now = s.global_thread_tick_counter in
          let k1 = put-Same s p (arrival now t).1 k at_p (arrival-Same now t) in
          Ensures-bind (thread_unblock b fuel p (put_thread s p (arrival now t).1))
            (thread_unblock-Rests p _ spared k1) λ s' ran k'. Ensures-some k')

    pub thread_ats_signal-Rests :
        (p : ℕ) (s : System)
        → Rests th t0 n s
        → Ensures (thread_ats_signal b fuel p s) (λ r. Rests th t0 n r.1)
    unfolding thread_ats_signal
    thread_ats_signal-Rests p s k = Ensures-lookup (s.threads p) λ t at_p.
        let t' = record t { ats_pending = add32 t.ats_pending 1 } in
        let same : Same t t' = record {
          status = refl;
          semaphore = refl;
          until = refl;
          carry = refl;
        } in
        Ensures-bind (thread_yield b fuel (put_thread s p t'))
          (yield-Rests _ (put-Same s p t' k at_p same)) λ s' ran k'. Ensures-some k'

    pub thread_ats_enable-Rests :
        (s : System) → Rests th t0 n s → Ensures (thread_ats_enable b fuel s) (Rests th t0 n)
    unfolding thread_ats_enable
    thread_ats_enable-Rests s k = Ensures-lookup (s.threads s.current_thread) λ this here.
        Ensures-if (this.ats_active == 0) (yield-Rests _ (put_current s _ k)) (Ensures-some k)

    pub thread_semaphore_p-Rests :
        (sem : ℕ) (s : System)
        → Rests th t0 n s
        → Ensures (thread_semaphore_p b fuel sem s) (Rests th t0 n)
    unfolding thread_semaphore_p
    thread_semaphore_p-Rests sem s k = Ensures-if (sem == 0) (Ensures-some k) (
        Ensures-lookup (s.semaphores sem) λ value at_sem.
          Ensures-if (sle16 value 0)
            (Ensures-lookup (s.threads s.current_thread)
              λ this here. yield-Rests _ (put_current s _ k))
            (Ensures-some (record { sits = Sits-frame k.sits _ refl refl refl; off = k.off })))

    pub thread_semaphore_v-Rests :
        (sem : ℕ) (s : System)
        → sem ≢ t0.blocked_semaphore
        → Rests th t0 n s
        → Ensures (thread_semaphore_v b fuel sem s) (Rests th t0 n)
    unfolding thread_semaphore_v
    thread_semaphore_v-Rests sem s ne k = Ensures-if (sem == 0) (Ensures-some k) (
        Ensures-bind (find_waiter fuel s sem s.thread_list 0)
          (find_waiter-IsCandidate fuel s sem s.thread_list 0 (inl refl))
          λ c ran candidate.
            Ensures-test (c == 0)
              (λ none_waits. Ensures-lookup (s.semaphores sem) λ value at_sem.
                Ensures-some (record { sits = Sits-frame k.sits _ refl refl refl; off = k.off }))
              (λ waits. Ensures-lookup (s.threads c) λ t at_c.
                let other : th ≢ c = elim candidate [
                  | inl e ↦ absurd (==→ne c 0 waits e)
                  | inr w ↦ (λ d.
                      let (u, at_u, wants) = w in
                      let same = found k.sits (ap s.threads d ∙ at_u) in
                      ne (sym wants ∙ same.semaphore))
                ] in
                yield-Rests _ (put_other s c _ k other)))

-- A tick takes one of those left.
pub timer2_ovf-Rests :
    (b : Board) {th : ℕ} {t0 : Thread} {n : ℕ}
    → HandlersSpare b th
    → (fuel : ℕ) (s : System) → Rests th t0 (suc n) s
    → Ensures (timer2_ovf b fuel s) (Rests th t0 n)
unfolding timer2_ovf
timer2_ovf-Rests b {th} {t0} {n} spare fuel s k =
    let ticked : Sits th t0 n
        (record s { global_thread_tick_counter = add32 s.global_thread_tick_counter 1 }) =
      record {
        block = k.sits.block;
        idle = k.sits.idle;
        not_main = k.sits.not_main;
        time = λ e. let (carry, early) = k.sits.time e in (carry, omega (arith, early));
      } in
    Ensures-if (add32 s.yield 1 == yield_max)
      (yield-Rests b spare fuel _
        (record { sits = Sits-frame ticked _ refl refl refl; off = k.off }))
      (Ensures-some (record { sits = Sits-frame ticked _ refl refl refl; off = k.off }))
