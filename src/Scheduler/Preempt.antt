-- ===== src/Scheduler/Preempt.antt =====
-- The whole of `thread_yield`: the walk, the accounting, and the switch to the elected thread.
use ecp_c.Base.{
  ℕ, ◌+◌, ◌-◌, ◌%◌, ◌^◌, ◌≤◌, ◌<◌, ◌≡◌, ◌≢◌, ◌⊎◌, inl, inr, refl, sym, ap, ◌∙◌, List, [], ◌∷◌, ◌++◌,
  some, length, some_inj, ◌==◌, Bool-cases, ==→eq, ==→ne,
}
use mathlib.Core.Path.{subst}
use ecp_c.System.{Thread, System, Board, active, update_ne}
use ecp_c.Context.Layout.{IsFrame}
use ecp_c.Context.Switch.{IsReady}
use ecp_c.Scheduler.{refresh, charge, demote, yield_loop, thread_yield}
use ecp_c.Scheduler.Ring.{Without, yield_loop-eq-visits}
use ecp_c.Scheduler.Elect.{In, AllLive, IsLive, Elected, IsEligible, priority_of, visits-Elected}
use ecp_c.Scheduler.Yield.{IsRing, In-append, In-left}
use ecp_c.Scheduler.Start.{settled, refresh_kept, yield-start, walked-Started}

-- Active once its wake-up is done.
abbrev pub IsAwake : System → ℕ → Type 0
IsAwake s x = (t : Thread) × (s.threads x ≡ some t) × ((refresh s t).status ≡ active)

pub Without-ne : (a x : ℕ) (ws : List ℕ) → Without a ws → In x ws → x ≢ a
Without-ne a x [] w i = absurd i
Without-ne a x (y ∷ ys) (n, w) (inl e) = λ h. n (sym e ∙ h)
Without-ne a x (y ∷ ys) (n, w) (inr i) = Without-ne a x ys w i

In-last : (a : ℕ) (ws : List ℕ) → In a (ws ++ a ∷ [])
In-last a [] = inl refl
In-last a (x ∷ ws) = inr (In-last a ws)

In-cases : (x : ℕ) (xs : List ℕ) → In x xs ⊎ (¬ In x xs)
In-cases x [] = inr (λ i. i)
In-cases x (y ∷ ys) = elim (Bool-cases (x == y)) [
  | inl same ↦ inl (inl (==→eq _ _ same))
  | inr other ↦ later (In-cases x ys) (==→ne _ _ other)
]
  where
    later : In x ys ⊎ (¬ In x ys) → x ≢ y → In x (y ∷ ys) ⊎ (¬ In x (y ∷ ys))
    later (inl i) n = inl (inr i)
    later (inr absent) n = inr (neither absent n)
      where
        neither : ¬ In x ys → x ≢ y → ¬ In x (y ∷ ys)
        neither absent n (inl e) = n e
        neither absent n (inr i) = absent i

AllLive-In : (s : System) (x : ℕ) (xs : List ℕ) → AllLive s xs → In x xs → IsLive s x
AllLive-In s x [] all i = absurd i
AllLive-In s x (y ∷ ys) (l, all) (inl e) = subst (IsLive s) (sym e) l
AllLive-In s x (y ∷ ys) (l, all) (inr i) = AllLive-In s x ys all i

-- Saved stack pointers leave room for a frame, and no thread takes ATS signals.
abbrev pub IsCalm : System → Type 0
IsCalm s = (q : ℕ) (t : Thread) → s.threads q ≡ some t → (t.sp + 37 < 2 ^ 16) × (t.ats_active ≢ 1)

module _ (s : System) (ws : List ℕ) (ring : IsRing s ws) (s' : System) (e : ℕ)
    (k : Elected s (ws ++ s.current_thread ∷ []) s.thread_main_inf s' e) where
  current_kept : s'.current_thread ≡ s.current_thread
  current_kept = ap System.current_thread k.state

  refreshed-In :
      (x : ℕ) {u : Thread}
      → In x (ws ++ s.current_thread ∷ [])
      → s'.threads x ≡ some u
      → (t : Thread) × (s.threads x ≡ some t) × (refresh s t ≡ u)
  refreshed-In x i at_x =
      let (t, here) = AllLive-In s x (ws ++ s.current_thread ∷ []) ring.all_live i in
      (t, here, some_inj (sym (k.refreshed x t i here) ∙ at_x))

  walked-IsCalm : IsCalm s → IsCalm s'
  walked-IsCalm calm q u at_q = elim (In-cases q (ws ++ s.current_thread ∷ [])) [
    | inl i ↦
        let (t, here, e) = refreshed-In q i at_q in
        subst (λ v. (v.sp + 37 < 2 ^ 16) × (v.ats_active ≢ 1)) e
          (rw ((refresh_kept s t).0, (refresh_kept s t).1) (calm q t here))
    | inr absent ↦ calm q u (sym (k.untouched q absent) ∙ at_q)
  ]

  elected-IsAwake : (e ≡ s.thread_main_inf) ⊎ (In e ws × IsAwake s e)
  elected-IsAwake = from k.origin
    where
      from :
          (e ≡ s.thread_main_inf) ⊎ (In e (ws ++ s.current_thread ∷ []) × IsEligible s' e)
          → (e ≡ s.thread_main_inf) ⊎ (In e ws × IsAwake s e)
      from (inl m) = inl m
      from (inr (i, (u, at_e, act, ne))) = among (In-append e s.current_thread ws i)
        where
          among :
              In e ws ⊎ (e ≡ s.current_thread) → (e ≡ s.thread_main_inf) ⊎ (In e ws × IsAwake s e)
          among (inl j) =
              let (t, here, same) = refreshed-In e i at_e in
              inr (j, (t, here, ap Thread.status same ∙ act))
          among (inr c) = absurd (ne (c ∙ sym current_kept))

  elected_best :
      (x : ℕ) (t : Thread)
      → In x ws
      → s.threads x ≡ some t
      → (refresh s t).status ≡ active
      → t.priority ≤ priority_of (s.threads e)
  elected_best x t i at_x act =
      let j = In-left x s.current_thread ws i in
      rw at_x at (
        k.best x j (
          refresh s t,
          k.refreshed x t j at_x,
          act,
          λ h. Without-ne s.current_thread x ws ring.others i (h ∙ current_kept),
        ))

-- Over a circular run queue, with fuel for one round, room for a frame on the running thread's
-- stack, saved stack pointers below 2 ^ 16 - 37 and no thread that takes ATS signals, `thread_yield`
-- ends. The thread that runs then is main or a thread of the queue that is active after the wake-ups,
-- and no active thread of the queue, the one that ran before left out, has a higher priority. The one
-- that ran before is charged and possibly demoted, and its registers, status register and return
-- address are on its stack; each other thread of the queue has had its wake-up.
pub yield_switches :
    (b : Board) (fuel : ℕ) (s : System) (ws : List ℕ) {this : Thread}
    → IsRing s ws
    → length ws < fuel
    → s.thread_list ≢ 0
    → IsReady b s
    → s.threads s.current_thread ≡ some this
    → IsCalm s
    → (s' : System) × (thread_yield b fuel s ≡ some s')
      × ((s'.current_thread ≡ s.thread_main_inf)
          ⊎ (In s'.current_thread ws × IsAwake s s'.current_thread))
      × ((x : ℕ) (t : Thread)
          → In x ws
          → s.threads x ≡ some t
          → (refresh s t).status ≡ active
          → t.priority ≤ priority_of (s.threads s'.current_thread))
      × (s'.threads s.current_thread
          ≡ some (record (demote (charge s (refresh s this))) { sp = s.cpu.sp - 37 }))
      × IsFrame s'.cpu.ram (s.cpu.sp - 37) s.cpu.regs (s.cpu.sreg % 128) b.return_address
      × ((x : ℕ) (t : Thread) → In x ws → s.threads x ≡ some t → s'.threads x ≡ some (refresh s t))
yield_switches b fuel s ws {this} ring enough listed ready live calm =
    let (r, run, k) =
      visits-Elected (ws ++ s.current_thread ∷ []) s s.thread_main_inf ring.all_live ring.distinct
        ring.main_live in
    let walk : yield_loop fuel s s.current_thread s.thread_main_inf
        ≡ some (record s { threads = r.0.threads; next_thread = r.0.next_thread }, r.1) =
      yield_loop-eq-visits ws s s.current_thread s.thread_main_inf fuel ring.walk ring.others enough
      ∙ run
      ∙ ap (λ t. some (t, r.1)) k.state in
    let here = k.refreshed s.current_thread this (In-last s.current_thread ws) live in
    let (u, elected) = k.live in
    let fits = walked-IsCalm s ws ring r.0 r.1 k calm r.1 u elected in
    let (s', ran, st) =
      walked-Started b fuel s this ready listed r.0.threads r.0.next_thread r.1 walk here elected
        fits.0 fits.1 ((calm s.current_thread this live).1) in
    (
      s',
      yield-start b fuel s this ready listed r.0.threads r.0.next_thread r.1 walk here ∙ ran,
      subst (λ e. (e ≡ s.thread_main_inf) ⊎ (In e ws × IsAwake s e)) (sym st.current)
          (elected-IsAwake s ws ring r.0 r.1 k),
      λ x t i at_x act. rw st.current (elected_best s ws ring r.0 r.1 k x t i at_x act),
      st.saved,
      st.frame,
      λ x t i at_x.
          st.others x (Without-ne s.current_thread x ws ring.others i)
          ∙ update_ne r.0.threads s.current_thread x (some (settled s this))
              (λ h. Without-ne s.current_thread x ws ring.others i (sym h))
          ∙ k.refreshed x t (In-left x s.current_thread ws i) at_x,
    )
