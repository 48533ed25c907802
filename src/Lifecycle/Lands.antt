-- ===== src/Lifecycle/Lands.antt =====
-- The thread that runs is on the circle of the run queue: `thread_yield` lands there.
use ecp_c.Base.{
  ℕ, zero, suc, ◌+◌, ◌-◌, ◌*◌, ◌%◌, ◌≡◌, ◌⊎◌, inl, inr, refl, sym, ap, ◌∙◌, List, [], ◌∷◌, ◌++◌,
  some, arith, ◌==◌, ◌&&◌, leb, not, if◌then◌else◌, Bool-cases, Ensures, Ensures-bind,
  Ensures-lookup, Ensures-if, Ensures-mono, Ensures-some, Ensures-none,
}
use mathlib.Core.Path.{subst}
use ecp_c.System.{Thread, System, Board, put_thread, active, ats_signal}
use ecp_c.Context.{change_high, do_switch}
use ecp_c.Scheduler.{
  elect, visit, yield_loop, successor, account, deliver_ats, thread_start, thread_yield,
}
use ecp_c.Scheduler.Elect.{In}
use ecp_c.Scheduler.Chain.{Chain}
use ecp_c.Scheduler.Kept.{KeepsQueue, visit-keeps}
use ecp_c.Lifecycle.Circle.{In-either, In-second}
use ecp_c.Lifecycle.Queue.{HasQueue, keeps-HasQueue, circle}

head-In : (s : System) (p : ℕ) (xs : List ℕ) → Chain s p xs → In p (circle s xs)
head-In s p [] chain = inl chain
head-In s p (x ∷ xs) (same, _, _, _) = inl same

next-In :
    (s : System) (p : ℕ) (xs : List ℕ) {t : Thread} (q : ℕ)
    → Chain s p xs
    → In q xs
    → s.threads q ≡ some t
    → In t.runq_next (circle s xs)
next-In s p [] q chain i at_q = absurd i
next-In s p (x ∷ xs) {t} q (same, not_main, ne, (u, at_x, chain)) (inl e) at_q =
    let next : u.runq_next ≡ t.runq_next = ground arith in
    inr (subst (λ a. In a (circle s xs)) next (head-In s u.runq_next xs chain))
next-In s p (x ∷ xs) q (same, not_main, ne, (u, at_x, chain)) (inr i) at_q =
    inr (next-In s u.runq_next xs q chain i at_q)

module _ (s : System) (xs : List ℕ) (h : HasQueue s xs) where
  successor-In :
      (q : ℕ) {t : Thread}
      → In q (circle s xs)
      → s.threads q ≡ some t
      → In (successor s t) (circle s xs)
  successor-In q {t} i at_q = elim (Bool-cases (t.runq_next == 0)) [
    | inl last ↦ rw last (head-In s s.thread_list xs h.chain)
    | inr later ↦ rw later (elim (In-either q xs (s.thread_main_inf ∷ []) i) [
      | inl j ↦ next-In s s.thread_list xs q h.chain j at_q
      | inr (inl e) ↦ absurd (ground (arith, h.main_last))
      | inr (inr k) ↦ absurd k
    ])
  ]

pub elect-either :
    (s : System) (p : ℕ) (th : Thread) (c : ℕ)
    → Ensures (elect s p th c) (λ c'. (c' ≡ c) ⊎ (c' ≡ p))
unfolding elect
elect-either s p th c =
    Ensures-if (th.status == active)
      (Ensures-lookup (s.threads c) λ t at_c.
        elim (Bool-cases (leb t.priority th.priority && not (p == s.current_thread))) [
          | inl better ↦ rw better (Ensures-some (inr refl))
          | inr worse ↦ rw worse (Ensures-some (inl refl))
        ])
      (Ensures-some (inl refl))

visit-either : (s : System) (p c : ℕ) → Ensures (visit s p c) (λ r. (r.1 ≡ c) ⊎ (r.1 ≡ p))
unfolding visit
visit-either s p c =
    Ensures-lookup (s.threads p)
      λ t at_p. Ensures-bind (elect _ p _ c) (elect-either _ p _ c) λ c' ran k. Ensures-some k

yield_loop-In :
    (fuel : ℕ) (s : System) (p c : ℕ) (xs : List ℕ)
    → HasQueue s xs
    → In p (circle s xs)
    → In c (circle s xs)
    → Ensures (yield_loop fuel s p c) (λ r. In r.1 (circle s xs))
unfolding yield_loop
yield_loop-In zero s p c xs h i j = Ensures-none
yield_loop-In (suc fuel) s p c xs h i j = Ensures-lookup (s.threads p) λ t at_p.
    let next = successor s t in
    let next_in : In next (circle s xs) = successor-In s xs h p i at_p in
    Ensures-bind (visit s next c) (visit-either s next c) λ r ran either.
      let k : KeepsQueue s r.0 = (visit-keeps s next c).holds r ran in
      let chosen : In r.1 (circle s xs) = elim either [
        | inl e ↦ subst (λ a. In a (circle s xs)) (sym e) j
        | inr e ↦ subst (λ a. In a (circle s xs)) (sym e) next_in
      ] in
      let same : circle r.0 xs ≡ circle s xs = ap (λ m. xs ++ m ∷ []) k.main in
      Ensures-if (next == s.current_thread) (Ensures-some chosen) (
        subst (λ ys. Ensures (yield_loop fuel r.0 next r.1) (λ r'. In r'.1 ys)) same
          (yield_loop-In fuel r.0 next r.1 xs (keeps-HasQueue k h)
            (subst (In next) (sym same) next_in) (subst (In r.1) (sym same) chosen)))

account-current : (s : System) → Ensures (account s) (λ s'. s'.current_thread ≡ s.current_thread)
unfolding account
account-current s = Ensures-lookup (s.threads s.current_thread) λ t here. Ensures-some refl

-- The error handlers of the sketch run in the thread that they are called in.
abbrev pub HandlersStay : Board → Type 0
HandlersStay b =
    (h e : ℕ) (s s' : System)
    → b.error_handler h e s ≡ some s'
    → s'.current_thread ≡ s.current_thread

module _ (b : Board) where
  change_high-current :
      (s : System) → Ensures (change_high b s) (λ s'. s'.current_thread ≡ s.next_thread)
  unfolding change_high
  change_high-current s = Ensures-lookup (s.threads s.current_thread) λ t here.
      let this = record t {
        sp =
            s.cpu.ram (b.px_current_tcb_aux + 1) % 256 * 256 + s.cpu.ram b.px_current_tcb_aux % 256;
      } in
      Ensures-lookup ((put_thread s s.current_thread this).threads s.next_thread)
        λ next there. Ensures-some refl

  pub do_switch-current :
      (s : System) → Ensures (do_switch b s) (λ s'. s'.current_thread ≡ s.next_thread)
  unfolding do_switch
  do_switch-current s =
      Ensures-bind (change_high b _) (change_high-current _) λ s' ran k. Ensures-some k

  module _ (stay : HandlersStay b) where
    deliver_ats-current :
        (fuel n : ℕ) (s : System)
        → Ensures (deliver_ats b fuel n s) (λ s'. s'.current_thread ≡ s.current_thread)
    unfolding deliver_ats
    deliver_ats-current fuel zero s = Ensures-none
    deliver_ats-current fuel (suc n) s = Ensures-lookup (s.threads s.current_thread) λ this here.
        let s1 =
          put_thread s s.current_thread (record this { ats_pending = this.ats_pending - 1 }) in
        Ensures-if (this.ats_pending == 0) (Ensures-some refl) (
          Ensures-bind
            (if this.error_handler == 0
              then some s1
              else b.error_handler this.error_handler ats_signal s1)
            (Ensures-if {Q = λ s2. s2.current_thread ≡ s.current_thread} (this.error_handler == 0)
              (Ensures-some refl)
              (record { holds = λ s2 e. stay this.error_handler ats_signal s1 s2 e }))
            λ s2 e k. Ensures-mono (λ s3 l. l ∙ k) (deliver_ats-current fuel n s2))

    thread_start-current :
        (fuel : ℕ) (s : System) (th : ℕ)
        → Ensures (thread_start b fuel s th) (λ s'. s'.current_thread ≡ th)
    unfolding thread_start
    thread_start-current fuel s th = Ensures-bind (do_switch b _) (do_switch-current _) λ s1 ran k.
        Ensures-lookup (s1.threads s1.current_thread) λ this here.
          Ensures-if (this.ats_active == 1)
            (Ensures-mono (λ s2 l. l ∙ k) (deliver_ats-current fuel fuel s1)) (Ensures-some k)

    pub thread_yield-In :
        (fuel : ℕ) (s : System) (xs : List ℕ)
        → HasQueue s xs
        → In s.current_thread (circle s xs)
        → Ensures (thread_yield b fuel s) (λ s'. In s'.current_thread (circle s xs))
    unfolding thread_yield
    thread_yield-In fuel s xs h i = Ensures-if (s.thread_list == 0) (Ensures-some i) (
        Ensures-bind (yield_loop fuel s s.current_thread s.thread_main_inf)
          (yield_loop-In fuel s s.current_thread s.thread_main_inf xs h i
            (In-second s.thread_main_inf xs (s.thread_main_inf ∷ []) (inl refl)))
          λ r ran j. Ensures-lookup (account r.0) λ s2 charged.
            Ensures-mono (λ s3 k. subst (λ a. In a (circle s xs)) (sym k) j)
              (thread_start-current fuel s2 r.1))
