-- ===== src/Lifecycle/Yields.antt =====
-- The circle of `thread_yield` over a well-formed run queue.
use ecp_c.Base.{
  ℕ, ◌+◌, ◌≤◌, ◌<◌, ◌≡◌, ◌≢◌, ◌⊎◌, inl, inr, sym, ap, ◌∙◌, List, [], ◌∷◌, ◌++◌, some, arith, length,
  length-append, Option-cases,
}
use mathlib.Core.Path.{subst}
use mathlib.Core.List.{append_assoc}
use ecp_c.System.{System, Board}
use ecp_c.Scheduler.{yield_loop}
use ecp_c.Scheduler.Ring.{Walk, link}
use ecp_c.Scheduler.Elect.{In, Distinct, AllLive, IsLive, IsEligible, priority_of}
use ecp_c.Scheduler.Chain.{Chain}
use ecp_c.Scheduler.Yield.{IsRing, yield_elects}
use ecp_c.Scheduler.Kept.{HandlersKeep}
use ecp_c.Remove.Unlink.{Chain-ne-main}
use ecp_c.Lifecycle.Queue.{circle, HasQueue, Chain-live}
use ecp_c.Lifecycle.Circle.{
  last, last-append, Walk-append, Walk-split, In-either, In-first, In-second, cut, Distinct-append,
  Distinct-rotate, Distinct-Without, AllLive-In,
}
use ecp_c.Lifecycle.Call.{Call, queue_run}
use ecp_c.Lifecycle.Runs.{Run, calls_refine, length-queue_run, run_lands, IsCarefulRun}
use ecp_c.Lifecycle.Lands.{HandlersStay}

Chain-ne : (s : System) (p : ℕ) (xs : List ℕ) → s.thread_main_inf ≢ 0 → Chain s p xs → p ≢ 0
Chain-ne s p [] ne chain e = ne (sym chain ∙ e)
Chain-ne s p (x ∷ xs) ne (same, _, x_ne, _) e = x_ne (sym same ∙ e)

Chain-Walk :
    (s : System) (x0 p : ℕ) (xs : List ℕ)
    → s.thread_main_inf ≢ 0
    → Chain s p xs
    → link s x0 ≡ some p
    → Walk s x0 (circle s xs)
Chain-Walk s x0 p [] ne chain here = (here ∙ ap some chain, tt)
Chain-Walk s x0 p (x ∷ xs) ne (same, not_main, x_ne, (t, at_x, chain)) here = (
  here ∙ ap some same,
  Chain-Walk s x t.runq_next xs ne chain
      (let t_ne = Chain-ne s t.runq_next xs ne chain in ground arith),
)

last-circle : (s : System) (p : ℕ) (xs : List ℕ) → last p (circle s xs) ≡ s.thread_main_inf
last-circle s p xs = last-append p xs (s.thread_main_inf ∷ [])

module _ (s : System) (xs : List ℕ) (h : HasQueue s xs) where
  main-IsLive : IsLive s s.thread_main_inf
  main-IsLive = elim (Option-cases (s.threads s.thread_main_inf)) [
    | inl gone ↦ absurd (ground (arith, h.main_last))
    | inr found ↦ found
  ]

  circle-IsLive : (q : ℕ) → In q (circle s xs) → IsLive s q
  circle-IsLive q i = elim (In-either q xs (s.thread_main_inf ∷ []) i) [
    | inl j ↦ elim (Option-cases (s.threads q)) [
      | inl gone ↦ absurd (Chain-live s s.thread_list xs h.chain q j gone)
      | inr found ↦ found
    ]
    | inr (inl e) ↦ subst (IsLive s) (sym e) main-IsLive
    | inr (inr k) ↦ absurd k
  ]

  circle-Distinct : Distinct (circle s xs)
  circle-Distinct =
      Distinct-append xs (s.thread_main_inf ∷ []) h.distinct ((λ k. k), tt)
        (λ a i j. elim j [ inl e ↦ Chain-ne-main s s.thread_list a xs h.chain i e | inr k ↦ k ])

  circle-Walk : Walk s s.thread_main_inf (circle s xs)
  circle-Walk =
      Chain-Walk s s.thread_main_inf s.thread_list xs h.main_ne h.chain
        (ground (arith, h.main_last))

  -- The circle, cut behind the thread that runs.
  module _ (us vs : List ℕ) (e : circle s xs ≡ (us ++ s.current_thread ∷ []) ++ vs) where
    around : vs ++ (us ++ s.current_thread ∷ []) ≡ (vs ++ us) ++ s.current_thread ∷ []
    around = sym (append_assoc vs us (s.current_thread ∷ []))

    back : last s.thread_main_inf (us ++ s.current_thread ∷ []) ≡ s.current_thread
    back = last-append s.thread_main_inf us (s.current_thread ∷ [])

    end : last s.current_thread vs ≡ s.thread_main_inf
    end =
        ap (λ p. last p vs) (sym back)
        ∙ sym (last-append s.thread_main_inf (us ++ s.current_thread ∷ []) vs)
        ∙ ap (last s.thread_main_inf) (sym e)
        ∙ last-circle s s.thread_main_inf xs

    turned-Walk : Walk s s.current_thread (vs ++ (us ++ s.current_thread ∷ []))
    turned-Walk =
        let (first, second) =
          Walk-split s s.thread_main_inf (us ++ s.current_thread ∷ []) vs
            (subst (Walk s s.thread_main_inf) e circle-Walk) in
        Walk-append s s.current_thread vs (us ++ s.current_thread ∷ [])
          (subst (λ p. Walk s p vs) back second)
          (subst (λ p. Walk s p (us ++ s.current_thread ∷ [])) (sym end) first)

    turned-Distinct : Distinct (vs ++ (us ++ s.current_thread ∷ []))
    turned-Distinct =
        Distinct-rotate (us ++ s.current_thread ∷ []) vs (subst Distinct e circle-Distinct)

    turned-IsLive : (q : ℕ) → In q (vs ++ (us ++ s.current_thread ∷ [])) → IsLive s q
    turned-IsLive q i = circle-IsLive q (
        subst (In q) (sym e) (elim (In-either q vs (us ++ s.current_thread ∷ []) i) [
          | inl j ↦ In-second q (us ++ s.current_thread ∷ []) vs j
          | inr j ↦ In-first q (us ++ s.current_thread ∷ []) vs j
        ]))

    turned-length : length (vs ++ us) ≡ length xs
    turned-length =
        let whole = ap length e in
        omega (
          arith,
          whole,
          length-append xs (s.thread_main_inf ∷ []),
          length-append (us ++ s.current_thread ∷ []) vs,
          length-append us (s.current_thread ∷ []),
          length-append vs us,
        )

    turned-IsRing : IsRing s (vs ++ us)
    turned-IsRing = record {
      walk = subst (Walk s s.current_thread) around turned-Walk;
      others = Distinct-Without s.current_thread (vs ++ us) (subst Distinct around turned-Distinct);
      all_live =
          subst (AllLive s) around
            (AllLive-In s (vs ++ (us ++ s.current_thread ∷ [])) turned-IsLive);
      distinct = subst Distinct around turned-Distinct;
      main_live = main-IsLive;
    }

    turned-In : (q : ℕ) → In q (vs ++ us) → In q (circle s xs)
    turned-In q i = subst (In q) (sym e) (elim (In-either q vs us i) [
      | inl j ↦ In-second q (us ++ s.current_thread ∷ []) vs j
      | inr j ↦
          In-first q (us ++ s.current_thread ∷ []) vs (In-first q us (s.current_thread ∷ []) j)
    ])

    In-turned : (q : ℕ) → In q (circle s xs) → q ≢ s.current_thread → In q (vs ++ us)
    In-turned q i other = elim (In-either q (us ++ s.current_thread ∷ []) vs (subst (In q) e i)) [
      | inr j ↦ In-first q vs us j
      | inl j ↦ elim (In-either q us (s.current_thread ∷ []) j) [
        | inl k ↦ In-second q vs us k
        | inr (inl same) ↦ absurd (other same)
        | inr (inr k) ↦ absurd k
      ]
    ]

  -- The circle from the thread that runs.
  HasQueue-IsRing :
      In s.current_thread (circle s xs)
      → (ws : List ℕ) × IsRing s ws
        × (length ws ≡ length xs)
        × ((q : ℕ) → In q ws → In q (circle s xs))
        × ((q : ℕ) → In q (circle s xs) → q ≢ s.current_thread → In q ws)
  HasQueue-IsRing i =
      let (us, vs, e) = cut s.current_thread (circle s xs) i in
      (vs ++ us, turned-IsRing us vs e, turned-length us vs e, turned-In us vs e, In-turned us vs e)

-- From a run queue of different threads that ends at main, with the thread that runs in the queue or
-- main, and with one unit of fuel for each thread and for each call and one more: after any calls of
-- the library and interrupts that return, none of them a removal of the thread that runs, when the
-- error handlers leave the run queue and the running thread alone and `malloc` returns free addresses,
-- the loop of `thread_yield` ends within the same fuel. It elects main or a thread of the queue that
-- is active after the wake-ups. Among the threads of the queue that are active then, the one that gives
-- up the processor left out, none has a higher priority than the elected one, nor has main.
pub run_yields :
    (b : Board) (fuel : ℕ) (cs : List Call) (s s1 : System) (xs : List ℕ)
    → HandlersKeep b
    → HandlersStay b
    → HasQueue s xs
    → In s.current_thread (circle s xs)
    → length xs + length cs < fuel
    → (run : Run b fuel cs s s1) → IsCarefulRun run
    → (s2 : System) × (e : ℕ) × (yield_loop fuel s1 s1.current_thread s1.thread_main_inf
        ≡ some (s2, e))
      × ((e ≡ s1.thread_main_inf) ⊎ (In e (circle s1 (queue_run cs xs)) × IsEligible s2 e))
      × ((q : ℕ)
          → In q (queue_run cs xs)
          → q ≢ s1.current_thread
          → IsEligible s2 q
          → priority_of (s1.threads q) ≤ priority_of (s1.threads e))
      × (priority_of (s1.threads s1.thread_main_inf) ≤ priority_of (s1.threads e))
run_yields b fuel cs s s1 xs handlers stay h on enough run careful =
    let ys = queue_run cs xs in
    let k = calls_refine b fuel cs s s1 xs handlers h enough run in
    let i = run_lands b fuel cs s s1 xs handlers stay h on enough run careful in
    let (ws, ring, size, into, out) = HasQueue-IsRing s1 ys k i in
    let few = length-queue_run cs xs in
    let (s2, e, ran, origin, best, over, _) =
      yield_elects s1 ws fuel ring (omega (arith, size, few)) in
    (
      s2,
      e,
      ran,
      elim origin [ inl m ↦ inl m | inr (j, live) ↦ inr (into e j, live) ],
      (λ q j other live. best q (out q (In-first q ys (s1.thread_main_inf ∷ []) j) other) live),
      over,
    )
