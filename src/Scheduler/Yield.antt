-- ===== src/Scheduler/Yield.antt =====
-- `thread_yield` over a well-formed run queue: whom it elects.
use ecp_c.Base.{ℕ, ◌≤◌, ◌<◌, ◌≡◌, ◌⊎◌, inl, inr, sym, ap, ◌∙◌, List, [], ◌∷◌, ◌++◌, some, length}
use ecp_c.System.{System}
use ecp_c.Scheduler.{yield_loop}
use ecp_c.Scheduler.Ring.{Walk, Without, yield_loop-eq-visits}
use ecp_c.Scheduler.Elect.{
  In, Distinct, AllLive, IsLive, IsEligible, Elected, priority_of, visits-Elected,
}

-- The run queue is a circle: from the thread that runs through `ws` back to it, over different and
-- live control blocks, `thread_main_inf` among the live ones.
pub record IsRing (s : System) (ws : List ℕ) : Type 0 where
  pub walk : Walk s s.current_thread (ws ++ s.current_thread ∷ [])
  pub others : Without s.current_thread ws
  pub all_live : AllLive s (ws ++ s.current_thread ∷ [])
  pub distinct : Distinct (ws ++ s.current_thread ∷ [])
  pub main_live : IsLive s s.thread_main_inf

pub In-append : (x a : ℕ) (xs : List ℕ) → In x (xs ++ a ∷ []) → In x xs ⊎ (x ≡ a)
In-append x a [] (inl e) = inr e
In-append x a [] (inr i) = absurd i
In-append x a (y ∷ ys) (inl e) = inl (inl e)
In-append x a (y ∷ ys) (inr i) = regroup (In-append x a ys i)
  where
    regroup : In x ys ⊎ (x ≡ a) → ((x ≡ y) ⊎ In x ys) ⊎ (x ≡ a)
    regroup (inl j) = inl (inr j)
    regroup (inr e) = inr e

pub In-left : (x a : ℕ) (xs : List ℕ) → In x xs → In x (xs ++ a ∷ [])
In-left x a (y ∷ ys) (inl e) = inl e
In-left x a (y ∷ ys) (inr i) = inr (In-left x a ys i)
In-left x a [] i = absurd i

-- Over a circular run queue with fuel for one round, the loop of `thread_yield` ends. It elects
-- `thread_main_inf`, or another thread of the queue that is active after the wake-ups; the elected
-- thread has at least the priority of main and of every active thread of the queue other than the
-- one that runs, and the one that runs is elected only if it is main.
pub yield_elects :
    (s : System) (ws : List ℕ) (fuel : ℕ)
    → IsRing s ws
    → length ws < fuel
    → (s' : System) × (e : ℕ) × (yield_loop fuel s s.current_thread s.thread_main_inf
        ≡ some (s', e))
      × ((e ≡ s.thread_main_inf) ⊎ (In e ws × IsEligible s' e))
      × ((x : ℕ)
          → In x ws
          → IsEligible s' x
          → priority_of (s.threads x) ≤ priority_of (s.threads e))
      × (priority_of (s.threads s.thread_main_inf) ≤ priority_of (s.threads e))
      × (e ≡ s.current_thread → s.current_thread ≡ s.thread_main_inf)
yield_elects s ws fuel ring enough =
    let (r, run, k) =
      visits-Elected (ws ++ s.current_thread ∷ []) s s.thread_main_inf ring.all_live ring.distinct
        ring.main_live in
    (
      r.0,
      r.1,
      yield_loop-eq-visits ws s s.current_thread s.thread_main_inf fuel ring.walk ring.others enough
          ∙ run,
      among r.0 r.1 k k.origin,
      λ x i el. k.best x (In-left x s.current_thread ws i) el,
      k.over,
      never r.0 r.1 k k.origin,
    )
  where
    among :
        (s' : System) (e : ℕ)
        → Elected s (ws ++ s.current_thread ∷ []) s.thread_main_inf s' e
        → (e ≡ s.thread_main_inf) ⊎ (In e (ws ++ s.current_thread ∷ []) × IsEligible s' e)
        → (e ≡ s.thread_main_inf) ⊎ (In e ws × IsEligible s' e)
    among s' e k (inl m) = inl m
    among s' e k (inr (i, (t, here, act, ne))) = narrow (In-append e s.current_thread ws i)
      where
        narrow :
            In e ws ⊎ (e ≡ s.current_thread) → (e ≡ s.thread_main_inf) ⊎ (In e ws × IsEligible s' e)
        narrow (inl j) = inr (j, (t, here, act, ne))
        narrow (inr c) = absurd (ne (c ∙ sym (ap System.current_thread k.state)))

    never :
        (s' : System) (e : ℕ)
        → Elected s (ws ++ s.current_thread ∷ []) s.thread_main_inf s' e
        → (e ≡ s.thread_main_inf) ⊎ (In e (ws ++ s.current_thread ∷ []) × IsEligible s' e)
        → e ≡ s.current_thread
        → s.current_thread ≡ s.thread_main_inf
    never s' e k (inl m) c = sym c ∙ m
    never s' e k (inr (i, (t, here, act, ne))) c =
        absurd (ne (c ∙ sym (ap System.current_thread k.state)))
