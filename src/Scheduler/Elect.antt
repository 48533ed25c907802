-- ===== src/Scheduler/Elect.antt =====
-- Which thread a walk of the run queue elects, and what it does to the control blocks.
use ecp_c.Base.{
  ℕ, ◌≤◌, ◌≡◌, ◌≢◌, ◌⊎◌, inl, inr, refl, sym, ap, ◌∙◌, List, [], ◌∷◌, Option, some, none, arith,
  ◌==◌, leb, ◌&&◌, not, Bool-cases, some_inj,
}
use ecp_c.System.{Thread, System, put_thread, update_ne, update_self, active}
use ecp_c.Scheduler.{wake, renew, refresh, elect, visit}
use ecp_c.Scheduler.Ring.{visits, visited}

abbrev pub In : ℕ → List ℕ → Type 0
In a [] = ⊥
In a (x ∷ xs) = (a ≡ x) ⊎ In a xs

abbrev pub Distinct : List ℕ → Type 0
Distinct [] = Unit
Distinct (x ∷ xs) = (¬ In x xs) × Distinct xs

abbrev pub IsLive : System → ℕ → Type 0
IsLive s p = (t : Thread) × (s.threads p ≡ some t)

abbrev pub AllLive : System → List ℕ → Type 0
AllLive s [] = Unit
AllLive s (x ∷ xs) = IsLive s x × AllLive s xs

abbrev pub priority_of : Option Thread → ℕ
priority_of none = 0
priority_of (some t) = t.priority

-- A thread that `thread_yield` may elect: active, and not the one that runs.
abbrev pub IsEligible : System → ℕ → Type 0
IsEligible s p =
    (t : Thread) × (s.threads p ≡ some t) × (t.status ≡ active) × (p ≢ s.current_thread)

-- A walk over `xs` from `s` with candidate `c` ends in `s'` with candidate `e`.
pub record Elected (s : System) (xs : List ℕ) (c : ℕ) (s' : System) (e : ℕ) : Type 0 where
  pub state : s' ≡ record s { threads = s'.threads; next_thread = s'.next_thread }
  pub untouched : (q : ℕ) → ¬ In q xs → s'.threads q ≡ s.threads q
  pub refreshed :
      (q : ℕ) (t : Thread) → In q xs → s.threads q ≡ some t → s'.threads q ≡ some (refresh s t)
  pub origin : (e ≡ c) ⊎ (In e xs × IsEligible s' e)
  pub over : priority_of (s.threads c) ≤ priority_of (s.threads e)
  pub best :
      (x : ℕ) → In x xs → IsEligible s' x → priority_of (s.threads x) ≤ priority_of (s.threads e)
  pub live : IsLive s' e

refresh_priority : (s : System) (t : Thread) → (refresh s t).priority ≡ t.priority
unfolding refresh wake renew
refresh_priority s t = ground arith

refresh-visited : (s : System) (p : ℕ) (t u : Thread) → refresh (visited s p t) u ≡ refresh s u
unfolding refresh wake renew
refresh-visited s p t u = refl

-- One visit with a live candidate.
record Voted (s : System) (p : ℕ) (t : Thread) (c c' : ℕ) : Type 0 where
  ran : visit s p c ≡ some (visited s p t, c')
  origin : (c' ≡ c) ⊎ ((c' ≡ p) × IsEligible (visited s p t) p)
  over : priority_of (s.threads c) ≤ priority_of (s.threads c')
  best : IsEligible (visited s p t) p → priority_of (s.threads p) ≤ priority_of (s.threads c')
  live : IsLive (visited s p t) c'

candidate_block :
    (s : System) (p c : ℕ) {t u : Thread}
    → s.threads p ≡ some t
    → s.threads c ≡ some u
    → (u' : Thread) × ((visited s p t).threads c ≡ some u') × (u'.priority ≡ u.priority)
candidate_block s p c {t} {u} here cand = elim (Bool-cases (p == c)) [
  | inl same ↦ (refresh s t, ground arith, ground (arith, refresh_priority s t))
  | inr other ↦ (u, ground arith, refl)
]

visit-Voted :
    (s : System) (p c : ℕ) {t u : Thread}
    → s.threads p ≡ some t
    → s.threads c ≡ some u
    → (c' : ℕ) × Voted s p t c c'
unfolding visit elect
visit-Voted s p c {t} {u} here cand =
    let (u', block, prio) = candidate_block s p c here cand in
    elim (Bool-cases ((refresh s t).status == active)) [
      | inr passive ↦ (
        c,
        record {
          ran = ground arith;
          origin = inl refl;
          over = omega arith;
          best = λ (v, e, act, ne). absurd (ground arith);
          live = (u', block);
        },
      )
      | inl awake ↦
          elim (Bool-cases
            (leb u'.priority (refresh s t).priority && not (p == s.current_thread))) [
              | inl wins ↦ (
                p,
                record {
                  ran = ground arith;
                  origin = inr (refl, (refresh s t, ground arith, ground arith, λ e. ground arith));
                  over = ground (arith, refresh_priority s t);
                  best = λ _. omega arith;
                  live = (refresh s t, ground arith);
                },
              )
              | inr loses ↦ (
                c,
                record {
                  ran = ground arith;
                  origin = inl refl;
                  over = omega arith;
                  best = λ (v, e, act, ne). ground (arith, refresh_priority s t);
                  live = (u', block);
                },
              )
            ]
    ]

AllLive-ne :
    (s : System) (x : ℕ) (xs : List ℕ) (t : Thread)
    → AllLive s xs
    → ¬ In x xs
    → AllLive (put_thread (record s { next_thread = x }) x t) xs
AllLive-ne s x [] t all n = tt
AllLive-ne s x (y ∷ ys) t ((u, here), all) n = (
  (u, (update_ne s.threads x y (some t) (λ e. n (inl e)) ∙ here)),
  AllLive-ne s x ys t all (λ i. n (inr i)),
)

priority-visited :
    (s : System) (x : ℕ) (t : Thread)
    → s.threads x ≡ some t
    → (q : ℕ) → priority_of ((visited s x t).threads q) ≡ priority_of (s.threads q)
priority-visited s x t here q = ground (arith, refresh_priority s t)

-- The first visit and the rest of the walk.
module _ (s : System) (x : ℕ) (xs : List ℕ) (c c1 : ℕ) {t : Thread} (here : s.threads x ≡ some t)
    (fresh : ¬ In x xs) (v : Voted s x t c c1) {s' : System} {e : ℕ}
    (k : Elected (visited s x t) xs c1 s' e) where
  head_block : s'.threads x ≡ some (refresh s t)
  head_block = k.untouched x fresh ∙ update_self s.threads x (some (refresh s t))

  same_current : s'.current_thread ≡ s.current_thread
  same_current = ap System.current_thread k.state

  rest_over : priority_of (s.threads c1) ≤ priority_of (s.threads e)
  rest_over = omega (arith, k.over, priority-visited s x t here c1, priority-visited s x t here e)

  cons-refreshed :
      (q : ℕ) (u : Thread)
      → In q (x ∷ xs)
      → s.threads q ≡ some u
      → s'.threads q ≡ some (refresh s u)
  cons-refreshed q u (inl same) at_q =
      let t_u : t ≡ u = some_inj (sym here ∙ ap s.threads (sym same) ∙ at_q) in
      ap s'.threads same ∙ head_block ∙ ap (λ w. some (refresh s w)) t_u
  cons-refreshed q u (inr i) at_q =
      k.refreshed q u i
        (update_ne s.threads x q (some (refresh s t)) (λ same. fresh (rw same i)) ∙ at_q)
      ∙ ap some (refresh-visited s x t u)

  head-IsEligible : IsEligible s' x → IsEligible (visited s x t) x
  head-IsEligible (u, at_x, act, ne) =
      (u, sym (k.untouched x fresh) ∙ at_x, act, λ same. ne (same ∙ sym same_current))

  cons-origin :
      (e ≡ c1) ⊎ (In e xs × IsEligible s' e)
      → (c1 ≡ c) ⊎ ((c1 ≡ x) × IsEligible (visited s x t) x)
      → (e ≡ c) ⊎ (In e (x ∷ xs) × IsEligible s' e)
  cons-origin (inr (i, el)) o = inr (inr i, el)
  cons-origin (inl p) (inl o) = inl (p ∙ o)
  cons-origin (inl p) (inr (o, (u, at_x, act, ne))) =
      let ex : e ≡ x = p ∙ o in
      inr (
        inl ex,
        (
          u,
          ap s'.threads ex ∙ k.untouched x fresh ∙ at_x,
          act,
          λ same. ne (sym ex ∙ same ∙ same_current),
        ),
      )

  cons-best :
      (y : ℕ)
      → In y (x ∷ xs)
      → IsEligible s' y
      → priority_of (s.threads y) ≤ priority_of (s.threads e)
  cons-best y (inl same) el =
      let el' : IsEligible s' x = rw same at el in
      rw same (omega (arith, v.best (head-IsEligible el'), rest_over))
  cons-best y (inr i) el =
      omega (arith, k.best y i el, priority-visited s x t here y, priority-visited s x t here e)

  Elected-cons : Elected s (x ∷ xs) c s' e
  Elected-cons = record {
    state = k.state;
    untouched = λ q n.
        k.untouched q (λ i. n (inr i))
        ∙ update_ne s.threads x q (some (refresh s t)) (λ same. n (inl (sym same)));
    refreshed = cons-refreshed;
    origin = cons-origin k.origin v.origin;
    over = omega (arith, v.over, rest_over);
    best = cons-best;
    live = k.live;
  }

-- A walk over live and different threads, from a live candidate, visits them all.
pub visits-Elected :
    (xs : List ℕ) (s : System) (c : ℕ)
    → AllLive s xs
    → Distinct xs
    → IsLive s c
    → (r : System × ℕ) × (visits xs s c ≡ some r) × Elected s xs c r.0 r.1
unfolding visits
visits-Elected [] s c all dis (u, cand) = (
  (s, c),
  refl,
  record {
    state = refl;
    untouched = λ q n. refl;
    refreshed = λ q t i h. absurd i;
    origin = inl refl;
    over = omega arith;
    best = λ x i e. absurd i;
    live = (u, cand);
  },
)
visits-Elected (x ∷ xs) s c ((t, here), all) (fresh, dis) (u, cand) =
    let (c1, v) = visit-Voted s x c here cand in
    let s1 = visited s x t in
    let (r, run, k) =
      visits-Elected xs s1 c1 (AllLive-ne s x xs (refresh s t) all fresh) dis v.live in
    (r, ground (arith, v.ran, run), Elected-cons s x xs c c1 here fresh v k)
