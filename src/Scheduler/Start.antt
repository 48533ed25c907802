-- ===== src/Scheduler/Start.antt =====
-- What `thread_yield` does after its walk: the accounting, and the start of the elected thread.
use ecp_c.Base.{
  ℕ, ◌+◌, ◌-◌, ◌%◌, ◌^◌, ◌<◌, ◌≡◌, ◌≢◌, inl, inr, refl, sym, ap, ◌∙◌, Option, some, arith, ◌==◌,
  Bool-cases, ==→eq, ==→ne,
}
use mathlib.Core.Path.{subst}
use ecp_c.System.{Thread, System, Board, put_thread, update_self, update_ne}
use ecp_c.Context.{do_switch}
use ecp_c.Context.Layout.{IsFrame}
use ecp_c.Context.Switch.{IsReady, Switched, do_switch_self, do_switch-other}
use ecp_c.Scheduler.{
  wake, renew, refresh, account, charge, charged_until, demote, yield_loop, thread_start,
  thread_yield,
}

-- What a start of the thread `e` leaves, when no signals are to be delivered.
pub record Started (b : Board) (s : System) (this : Thread) (e : ℕ) (s' : System) : Type 0 where
  pub current : s'.current_thread ≡ e
  pub saved : s'.threads s.current_thread ≡ some (record this { sp = s.cpu.sp - 37 })
  pub frame : IsFrame s'.cpu.ram (s.cpu.sp - 37) s.cpu.regs (s.cpu.sreg % 128) b.return_address
  pub others : (q : ℕ) → q ≢ s.current_thread → s'.threads q ≡ s.threads q

-- Readiness is about the processor.
pub IsReady-eq : (b : Board) (s s' : System) → s'.cpu ≡ s.cpu → IsReady b s → IsReady b s'
IsReady-eq b s s' e r =
    subst (λ c. IsReady b (record s' { cpu = c })) (sym e)
      (record {
        small = r.small;
        room = r.room;
        linked = r.linked;
        apart = r.apart;
        spilled = r.spilled;
        px_low = r.px_low;
        px_high = r.px_high;
        aux_low = r.aux_low;
        aux_high = r.aux_high;
      })

module _ (b : Board) (fuel : ℕ) (s : System) (e : ℕ) where
  Switched-Started :
      {this : Thread} {p : ℕ} (s' : System)
      → Switched b (record s { next_thread = e }) this p s'
      → Started b s this e s'
  Switched-Started {this} s' k = record {
    current = ap System.current_thread k.state;
    saved =
        ap (λ t. System.threads t s.current_thread) k.state
        ∙ update_self s.threads s.current_thread (some (record this { sp = s.cpu.sp - 37 }));
    frame = k.frame;
    others = λ q n.
        ap (λ t. System.threads t q) k.state
        ∙ update_ne s.threads s.current_thread q (some (record this { sp = s.cpu.sp - 37 }))
            (λ h. n (sym h));
  }

  quiet_start :
      (s' : System) {u : Thread}
      → do_switch b (record s { next_thread = e }) ≡ some s'
      → s'.threads s'.current_thread ≡ some u
      → u.ats_active ≢ 1
      → thread_start b fuel s e ≡ some s'
  unfolding thread_start
  quiet_start s' {u} run here quiet = ground arith

  start_self :
      {this : Thread}
      → IsReady b s
      → s.threads s.current_thread ≡ some this
      → this.ats_active ≢ 1
      → e ≡ s.current_thread
      → (s' : System) × (thread_start b fuel s e ≡ some s') × Started b s this e s'
  start_self {this} ready live quiet same =
      let (s', run, k) =
        do_switch_self b (record s { next_thread = e }) (IsReady-eq b s _ refl ready) live same in
      let st = Switched-Started s' k in
      (
        s',
        quiet_start s' {u = record this { sp = s.cpu.sp - 37 }} run
            (ap s'.threads (st.current ∙ same) ∙ st.saved) quiet,
        st,
      )

  start_other :
      {this next : Thread}
      → IsReady b s
      → s.threads s.current_thread ≡ some this
      → s.threads e ≡ some next
      → next.sp + 37 < 2 ^ 16
      → next.ats_active ≢ 1
      → e ≢ s.current_thread
      → (s' : System) × (thread_start b fuel s e ≡ some s') × Started b s this e s'
  start_other {this} {next} ready live live' small quiet other =
      let (s', run, k) =
        do_switch-other b (record s { next_thread = e }) (IsReady-eq b s _ refl ready) live live'
          (λ h. other (sym h)) small in
      let st = Switched-Started s' k in
      (
        s',
        quiet_start s' {u = next} run (ap s'.threads st.current ∙ st.others e other ∙ live') quiet,
        st,
      )

abbrev pub settled : System → Thread → Thread
settled s this = demote (charge s (refresh s this))

settled_ats : (s : System) (this : Thread) → (settled s this).ats_active ≡ this.ats_active
unfolding refresh wake renew
settled_ats s this = ground arith

pub refresh_kept :
    (s : System) (t : Thread)
    → ((refresh s t).sp ≡ t.sp) × ((refresh s t).ats_active ≡ t.ats_active)
unfolding refresh wake renew
refresh_kept s t = (ground arith, ground arith)

-- The state in which the switch starts, after a walk that left the control blocks `f`.
abbrev pub walked : System → Thread → (ℕ → Option Thread) → ℕ → System
walked s this f n =
    put_thread (record s { threads = f; next_thread = n; tick_counter_last_cost = charged_until s })
      s.current_thread (settled s this)

module _ (b : Board) (fuel : ℕ) (s : System) (this : Thread) (ready : IsReady b s)
    (listed : s.thread_list ≢ 0) (f : ℕ → Option Thread) (n e : ℕ)
    (run : yield_loop fuel s s.current_thread s.thread_main_inf
      ≡ some (record s { threads = f; next_thread = n }, e))
    (here : f s.current_thread ≡ some (refresh s this)) where
  pub yield-start : thread_yield b fuel s ≡ thread_start b fuel (walked s this f n) e
  unfolding thread_yield account
  yield-start = ground (arith, run, here)

  pub walked-Started :
      {u : Thread}
      → f e ≡ some u
      → u.sp + 37 < 2 ^ 16
      → u.ats_active ≢ 1
      → this.ats_active ≢ 1
      → (s' : System) × (thread_start b fuel (walked s this f n) e ≡ some s')
        × Started b (walked s this f n) (settled s this) e s'
  walked-Started {u} elected small quiet quiet' = elim (Bool-cases (e == s.current_thread)) [
    | inl same ↦
        start_self b fuel (walked s this f n) e {this = settled s this} ready' here'
          (omega (arith, settled_ats s this)) (==→eq _ _ same)
    | inr other ↦
        start_other b fuel (walked s this f n) e {this = settled s this} {next = u} ready' here'
          (update_ne f s.current_thread e (some (settled s this)) (λ h. ==→ne _ _ other (sym h))
            ∙ elected)
          small quiet (==→ne _ _ other)
  ]
    where
      ready' : IsReady b (walked s this f n)
      ready' = IsReady-eq b s (walked s this f n) refl ready

      here' : (walked s this f n).threads s.current_thread ≡ some (settled s this)
      here' = update_self f s.current_thread (some (settled s this))
