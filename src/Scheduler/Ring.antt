-- ===== src/Scheduler/Ring.antt =====
-- The run queue as the circle of addresses that `thread_yield` walks.
use ecp_c.Base.{
  ℕ, zero, suc, ◌<◌, ◌≡◌, ◌≢◌, inl, inr, ◌∙◌, List, [], ◌∷◌, ◌++◌, Option, some, arith, length,
  ◌>>=◌, Option-cases,
}
use ecp_c.System.{Thread, System, put_thread}
use ecp_c.Scheduler.{wake, renew, refresh, visit, successor, yield_loop}

-- The address that the walk reaches from `p`.
abbrev pub link : System → ℕ → Option ℕ
link s p = s.threads p >>= λ t. some (successor s t)

-- The walk from `p` passes through the listed addresses in turn.
abbrev pub Walk : System → ℕ → List ℕ → Type 0
Walk s p [] = Unit
Walk s p (x ∷ xs) = (link s p ≡ some x) × Walk s x xs

abbrev pub Without : ℕ → List ℕ → Type 0
Without a [] = Unit
Without a (x ∷ xs) = (x ≢ a) × Without a xs

-- The visits of a walk, as a loop over the addresses.
unfoldable pub visits : List ℕ → System → ℕ → Option (System × ℕ)
visits [] s c = some (s, c)
visits (x ∷ xs) s c = visit s x c >>= λ r. visits xs r.0 r.1

refresh_next : (s : System) (t : Thread) → (refresh s t).runq_next ≡ t.runq_next
unfolding refresh wake renew
refresh_next s t = ground arith

-- The state after the visit of the control block `t` at `p`.
abbrev pub visited : System → ℕ → Thread → System
visited s p t = put_thread (record s { next_thread = p }) p (refresh s t)

pub visit-inv :
    (s : System) (p c : ℕ) {r : System × ℕ}
    → visit s p c ≡ some r
    → (t : Thread) × (s.threads p ≡ some t) × (r.0 ≡ visited s p t)
unfolding visit
visit-inv s p c h = elim (Option-cases (s.threads p)) [
  | inl e ↦ absurd (ground arith)
  | inr (t, e) ↦ (t, e, ground arith)
]

link-visited :
    (s : System) (p : ℕ) (t : Thread)
    → s.threads p ≡ some t
    → (q : ℕ) → link (visited s p t) q ≡ link s q
link-visited s p t e q = ground (arith, refresh_next s t)

-- A visit changes one control block, and not where its list goes.
pub visit-frame :
    (s : System) (p c : ℕ) {r : System × ℕ}
    → visit s p c ≡ some r
    → ((q : ℕ) → link r.0 q ≡ link s q) × (r.0.current_thread ≡ s.current_thread)
visit-frame s p c h =
    let (t, e, k) = visit-inv s p c h in (λ q. rw k (link-visited s p t e q), rw k)

pub Walk-eq :
    (s s' : System) (p : ℕ) (xs : List ℕ)
    → ((q : ℕ) → link s' q ≡ link s q)
    → Walk s p xs
    → Walk s' p xs
Walk-eq s s' p [] e w = tt
Walk-eq s s' p (x ∷ xs) e w = (e p ∙ w.0, Walk-eq s s' x xs e w.1)

-- The pointer loop visits the addresses of the walk, and needs one unit of fuel for each.
pub yield_loop-eq-visits :
    (ws : List ℕ) (s : System) (p c fuel : ℕ)
    → Walk s p (ws ++ s.current_thread ∷ [])
    → Without s.current_thread ws
    → length ws < fuel
    → yield_loop fuel s p c ≡ visits (ws ++ s.current_thread ∷ []) s c
unfolding yield_loop visits
yield_loop-eq-visits ws s p c zero w n f = absurd (omega arith)
yield_loop-eq-visits [] s p c (suc fuel) w n f = elim (Option-cases (visit s s.current_thread c)) [
  | inl e ↦ ground arith
  | inr (r, e) ↦ ground arith
]
yield_loop-eq-visits (x ∷ xs) s p c (suc fuel) w n f = elim (Option-cases (visit s x c)) [
  | inl e ↦ ground arith
  | inr (r, e) ↦
      let (same, cur) = visit-frame s x c e in
      let step =
        yield_loop-eq-visits xs r.0 x r.1 fuel
          (Walk-eq s r.0 x (xs ++ r.0.current_thread ∷ []) same (rw cur w.1)) (rw cur n.1)
          (omega arith) in
      ground (arith, e, cur, step)
]
