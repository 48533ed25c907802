-- ===== src/Scheduler/Kept.antt =====
-- The operations of the scheduler leave the order of the run queue as it is.
use ecp_c.Base.{
  ℕ, zero, suc, ◌-◌, ◌+◌, ◌*◌, ◌%◌, ◌≡◌, refl, ◌∙◌, sym, List, [], ◌∷◌, Option, some, arith, ◌==◌,
  if◌then◌else◌, ◌>>=◌, Option-cases, inl, inr, Ensures, Ensures-bind, Ensures-lookup, Ensures-if,
  Ensures-mono, Ensures-some, Ensures-none,
}
use ecp_c.System.{Thread, System, Board, put_thread, update, ats_signal}
use ecp_c.Context.{change_high, do_switch}
use ecp_c.Scheduler.{
  wake, renew, refresh, elect, visit, yield_loop, account, deliver_ats, thread_start, thread_yield,
}
use ecp_c.Scheduler.Chain.{Chain}

-- The control block that the one at `q` points to.
abbrev pub next_of : System → ℕ → Option ℕ
next_of s q = s.threads q >>= λ t. some t.runq_next

-- The same head, the same main thread and the same links.
pub record KeepsQueue (s s' : System) : Type 0 where
  pub main : s'.thread_main_inf ≡ s.thread_main_inf
  pub head : s'.thread_list ≡ s.thread_list
  pub next : (q : ℕ) → next_of s' q ≡ next_of s q

pub keeps_refl : (s : System) → KeepsQueue s s
keeps_refl s = record { main = refl; head = refl; next = λ q. refl }

pub keeps_trans : {s s1 s2 : System} → KeepsQueue s s1 → KeepsQueue s1 s2 → KeepsQueue s s2
keeps_trans k l = record {
  main = l.main ∙ k.main;
  head = l.head ∙ k.head;
  next = λ q. l.next q ∙ k.next q;
}

-- A control block is written back with its link.
pub keeps_update :
    (s s' : System) (p : ℕ) {t : Thread} (t' : Thread)
    → s.threads p ≡ some t
    → t'.runq_next ≡ t.runq_next
    → s'.threads ≡ update s.threads p (some t')
    → s'.thread_main_inf ≡ s.thread_main_inf
    → s'.thread_list ≡ s.thread_list
    → KeepsQueue s s'
keeps_update s s' p t' at_p same e main head = record {
  main = main;
  head = head;
  next = λ q. rw e (ground arith);
}

-- A chain through the same links.
pub Chain-keeps :
    (s s' : System) (p : ℕ) (xs : List ℕ) → KeepsQueue s s' → Chain s p xs → Chain s' p xs
Chain-keeps s s' p [] k chain = chain ∙ sym k.main
Chain-keeps s s' p (x ∷ xs) k (here, not_main, ne, (t, block, chain)) =
    elim (Option-cases (s'.threads x)) [
      | inl gone ↦ absurd (ground (arith, k.next x))
      | inr (t', block') ↦
          let same : t'.runq_next ≡ t.runq_next = ground (arith, k.next x) in
          (
            here,
            (λ e. not_main (e ∙ k.main)),
            ne,
            (t', block', rw same (Chain-keeps s s' t.runq_next xs k chain)),
          )
    ]

refresh_next : (s : System) (t : Thread) → (refresh s t).runq_next ≡ t.runq_next
unfolding refresh wake renew
refresh_next s t = ground arith

pub visit-keeps : (s : System) (p c : ℕ) → Ensures (visit s p c) (λ r. KeepsQueue s r.0)
unfolding visit
visit-keeps s p c = Ensures-lookup (s.threads p) λ t at_p.
    Ensures-lookup (elect _ _ _ _)
      λ c' e. Ensures-some (keeps_update s _ p _ at_p (refresh_next _ t) refl refl refl)

pub yield_loop-keeps :
    (fuel : ℕ) (s : System) (p c : ℕ) → Ensures (yield_loop fuel s p c) (λ r. KeepsQueue s r.0)
unfolding yield_loop
yield_loop-keeps zero s p c = Ensures-none
yield_loop-keeps (suc fuel) s p c = Ensures-lookup (s.threads p) λ t at_p.
    Ensures-bind (visit s _ c) (visit-keeps s _ c) λ r ran k.
      Ensures-if (_ == s.current_thread) (Ensures-some k)
        (Ensures-mono (λ r' l. keeps_trans k l) (yield_loop-keeps fuel r.0 _ r.1))

pub account-keeps : (s : System) → Ensures (account s) (KeepsQueue s)
unfolding account
account-keeps s =
    Ensures-lookup (s.threads s.current_thread) λ t here.
      Ensures-some (keeps_update s _ s.current_thread _ here (ground arith) refl refl refl)

module _ (b : Board) where
  change_high-keeps : (s : System) → Ensures (change_high b s) (KeepsQueue s)
  unfolding change_high
  change_high-keeps s = Ensures-lookup (s.threads s.current_thread) λ t here.
      let this = record t {
        sp =
            s.cpu.ram (b.px_current_tcb_aux + 1) % 256 * 256 + s.cpu.ram b.px_current_tcb_aux % 256;
      } in
      Ensures-lookup ((put_thread s s.current_thread this).threads s.next_thread)
        λ next there. Ensures-some (keeps_update s _ s.current_thread this here refl refl refl refl)

  do_switch-keeps : (s : System) → Ensures (do_switch b s) (KeepsQueue s)
  unfolding do_switch
  do_switch-keeps s =
      Ensures-bind (change_high b _) (change_high-keeps _)
        λ s' ran k. Ensures-some (record { main = k.main; head = k.head; next = k.next })

  -- The error handlers of the sketch neither create nor remove threads.
  abbrev pub HandlersKeep : Type 0
  HandlersKeep = (h e : ℕ) (s s' : System) → b.error_handler h e s ≡ some s' → KeepsQueue s s'

  module _ (handlers : HandlersKeep) where
    deliver_ats-keeps : (fuel n : ℕ) (s : System) → Ensures (deliver_ats b fuel n s) (KeepsQueue s)
    unfolding deliver_ats
    deliver_ats-keeps fuel zero s = Ensures-none
    deliver_ats-keeps fuel (suc n) s = Ensures-lookup (s.threads s.current_thread) λ this here.
        let this' = record this { ats_pending = this.ats_pending - 1 } in
        let s1 = put_thread s s.current_thread this' in
        let k : KeepsQueue s s1 =
          keeps_update s s1 s.current_thread this' here refl refl refl refl in
        Ensures-if (this.ats_pending == 0) (Ensures-some (keeps_refl s)) (
          Ensures-bind
            (if this.error_handler == 0
              then some s1
              else b.error_handler this.error_handler ats_signal s1)
            (Ensures-if (this.error_handler == 0) (Ensures-some k) (record {
              holds = λ s2 e. keeps_trans k (handlers this.error_handler ats_signal s1 s2 e);
            }))
            λ s2 e k2. Ensures-mono (λ s3. keeps_trans k2) (deliver_ats-keeps fuel n s2))

    thread_start-keeps :
        (fuel : ℕ) (s : System) (th : ℕ) → Ensures (thread_start b fuel s th) (KeepsQueue s)
    unfolding thread_start
    thread_start-keeps fuel s th = Ensures-bind (do_switch b _) (do_switch-keeps _) λ s1 ran k1.
        let k : KeepsQueue s s1 = record { main = k1.main; head = k1.head; next = k1.next } in
        Ensures-lookup (s1.threads s1.current_thread) λ this here.
          Ensures-if (this.ats_active == 1)
            (Ensures-mono (λ s2. keeps_trans k) (deliver_ats-keeps fuel fuel s1)) (Ensures-some k)

    pub thread_yield-keeps :
        (fuel : ℕ) (s : System) → Ensures (thread_yield b fuel s) (KeepsQueue s)
    unfolding thread_yield
    thread_yield-keeps fuel s = Ensures-if (s.thread_list == 0) (Ensures-some (keeps_refl s)) (
        Ensures-bind (yield_loop fuel s s.current_thread s.thread_main_inf)
          (yield_loop-keeps fuel s s.current_thread s.thread_main_inf)
          λ r ran k. Ensures-bind (account r.0) (account-keeps r.0) λ s2 charged k2.
            Ensures-mono (λ s3 k3. keeps_trans k (keeps_trans k2 k3))
              (thread_start-keeps fuel s2 r.1))
