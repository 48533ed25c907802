-- ===== src/Semaphore/Waiters.antt =====
-- Which waiting thread a V wakes, and whom the end of a semaphore releases.
use ecp_c.Base.{
  ℕ, zero, suc, ◌≤◌, ◌<◌, ◌≡◌, ◌≢◌, ◌⊎◌, inl, inr, refl, sym, ap, ◌∙◌, List, [], ◌∷◌, some, arith,
  length, ◌==◌, ltb, Bool-cases, some_inj, ==→eq, ==→ne,
}
use ecp_c.System.{Thread, System, put_thread, update_ne, update_self}
use ecp_c.Semaphore.{prefer, find_waiter, release_all, released}
use ecp_c.Scheduler.Chain.{Chain, Chain-frame}
use ecp_c.Scheduler.Elect.{In, Distinct, priority_of}

abbrev pub IsWaiter : System → ℕ → ℕ → Type 0
IsWaiter s sem p = (t : Thread) × (s.threads p ≡ some t) × (t.blocked_semaphore ≡ sem)

-- The result of the search over `xs` from the candidate `c`, 0 for none.
pub record Best (s : System) (sem : ℕ) (xs : List ℕ) (c e : ℕ) : Type 0 where
  pub origin : (e ≡ c) ⊎ (In e xs × IsWaiter s sem e × (e ≢ 0))
  pub over : c ≢ 0 → (e ≢ 0) × (priority_of (s.threads c) ≤ priority_of (s.threads e))
  pub best :
      (x : ℕ)
      → In x xs
      → IsWaiter s sem x
      → (e ≢ 0) × (priority_of (s.threads x) ≤ priority_of (s.threads e))

abbrev pub IsCandidate : System → ℕ → Type 0
IsCandidate s c = (c ≡ 0) ⊎ ((t : Thread) × (s.threads c ≡ some t))

record Preferred (s : System) (sem p : ℕ) (t : Thread) (c c' : ℕ) : Type 0 where
  ran : prefer s sem p t c ≡ some c'
  live : IsCandidate s c'
  pick : Best s sem (p ∷ []) c c'

module _ (s : System) (sem p : ℕ) {t : Thread} (here : s.threads p ≡ some t) (ne : p ≢ 0) where
  prefer-other : (c : ℕ) → IsCandidate s c → t.blocked_semaphore ≢ sem → Preferred s sem p t c c
  unfolding prefer
  prefer-other c cand other = record {
    ran = ground arith;
    live = cand;
    pick = record {
      origin = inl refl;
      over = λ n. (n, omega arith);
      best = λ x i w. absurd (clash x i w);
    };
  }
    where
      clash : (x : ℕ) → In x (p ∷ []) → IsWaiter s sem x → ⊥
      clash x (inl e) (u, at_x, w) = ground arith
      clash x (inr i) w = i

  prefer-first : t.blocked_semaphore ≡ sem → Preferred s sem p t 0 p
  unfolding prefer
  prefer-first waits = record {
    ran = ground arith;
    live = inr (t, here);
    pick = record {
      origin = inr (inl refl, (t, here, waits), ne);
      over = λ n. absurd (n refl);
      best = λ x i w. (ne, same x i);
    };
  }
    where
      same : (x : ℕ) → In x (p ∷ []) → priority_of (s.threads x) ≤ priority_of (s.threads p)
      same x (inl e) = ground arith
      same x (inr i) = absurd i

  prefer-better :
      (c : ℕ) {u : Thread}
      → s.threads c ≡ some u
      → c ≢ 0
      → t.blocked_semaphore ≡ sem
      → (c' : ℕ) × Preferred s sem p t c c'
  unfolding prefer
  prefer-better c {u} cand nc waits = elim (Bool-cases (ltb u.priority t.priority)) [
    | inl higher ↦ (
      p,
      record {
        ran = ground arith;
        live = inr (t, here);
        pick = record {
          origin = inr (inl refl, (t, here, waits), ne);
          over = λ n. (ne, ground arith);
          best = λ x i w. (ne, at_head x i p (omega arith));
        };
      },
    )
    | inr lower ↦ (
      c,
      record {
        ran = ground arith;
        live = inr (u, cand);
        pick = record {
          origin = inl refl;
          over = λ n. (nc, omega arith);
          best = λ x i w. (nc, at_head x i c (ground arith));
        };
      },
    )
  ]
    where
      at_head :
          (x : ℕ)
          → In x (p ∷ [])
          → (e : ℕ) → priority_of (s.threads p) ≤ priority_of (s.threads e)
          → priority_of (s.threads x) ≤ priority_of (s.threads e)
      at_head x (inl same) e h = rw same h
      at_head x (inr i) e h = absurd i

  prefer_lem : (c : ℕ) → IsCandidate s c → (c' : ℕ) × Preferred s sem p t c c'
  prefer_lem c cand = elim (Bool-cases (t.blocked_semaphore == sem)) [
    | inr other ↦ (c, prefer-other c cand (==→ne _ _ other))
    | inl waits ↦ by_candidate cand (==→eq _ _ waits)
  ]
    where
      by_candidate :
          IsCandidate s c → t.blocked_semaphore ≡ sem → (c' : ℕ) × Preferred s sem p t c c'
      by_candidate (inl e) waits = (p, rw e (prefer-first waits))
      by_candidate (inr (u, at_c)) waits = elim (Bool-cases (c == 0)) [
        | inl e ↦ (p, rw (==→eq _ _ e) (prefer-first waits))
        | inr nc ↦ prefer-better c at_c (==→ne _ _ nc) waits
      ]

  Best-cons :
      (xs : List ℕ) (c c' e : ℕ)
      → Best s sem (p ∷ []) c c'
      → Best s sem xs c' e
      → Best s sem (p ∷ xs) c e
  Best-cons xs c c' e h k = record {
    origin = from k.origin h.origin;
    over = λ n. let (n', le) = h.over n in let (n'', le') = k.over n' in (n'', omega arith);
    best = choose;
  }
    where
      from :
          (e ≡ c') ⊎ (In e xs × IsWaiter s sem e × (e ≢ 0))
          → (c' ≡ c) ⊎ (In c' (p ∷ []) × IsWaiter s sem c' × (c' ≢ 0))
          → (e ≡ c) ⊎ (In e (p ∷ xs) × IsWaiter s sem e × (e ≢ 0))
      from (inr (i, w, n)) o = inr (inr i, w, n)
      from (inl ec) (inl cc') = inl (ec ∙ cc')
      from (inl ec) (inr (inr i, w, n)) = absurd i
      from (inl ec) (inr (inl cp, w, n)) = inr (inl (ec ∙ cp), rw ec w, λ z. n (sym ec ∙ z))

      choose :
          (x : ℕ)
          → In x (p ∷ xs)
          → IsWaiter s sem x
          → (e ≢ 0) × (priority_of (s.threads x) ≤ priority_of (s.threads e))
      choose x (inl same) w =
          let (n, le) = h.best x (inl same) w in let (n', le') = k.over n in (n', omega arith)
      choose x (inr i) w = k.best x i w

-- The search over a well-formed run queue ends with a waiting thread of the highest priority among
-- those that wait, or with 0 if none waits.
pub find_waiter_from :
    (xs : List ℕ) (s : System) (sem p c fuel : ℕ)
    → Chain s p xs
    → length xs < fuel
    → IsCandidate s c
    → (e : ℕ) × (find_waiter fuel s sem p c ≡ some e) × Best s sem xs c e
unfolding find_waiter
find_waiter_from xs s sem p c zero chain enough cand = absurd (omega arith)
find_waiter_from [] s sem p c (suc fuel) chain enough cand = (
  c,
  ground arith,
  record { origin = inl refl; over = λ n. (n, omega arith); best = λ x i w. absurd i },
)
find_waiter_from (x ∷ xs) s sem p c (suc fuel) (same, not_main, ne, (t, here, chain)) enough cand =
    let (c', k) = prefer_lem s sem x here ne c cand in
    let (e, run, best) = find_waiter_from xs s sem t.runq_next c' fuel chain (omega arith) k.live in
    (e, ground (arith, k.ran, run), Best-cons s sem x here ne xs c c' e k.pick best)

-- What the loop of `thread_semaphore_free` does to the control blocks.
pub record Released (s : System) (sem : ℕ) (xs : List ℕ) (s' : System) : Type 0 where
  pub inside :
      (x : ℕ) (t : Thread) → In x xs → s.threads x ≡ some t → s'.threads x ≡ some (released sem t)
  pub outside : (q : ℕ) → ¬ In q xs → s'.threads q ≡ s.threads q

pub release_all_from :
    (xs : List ℕ) (s : System) (sem p fuel : ℕ)
    → Chain s p xs
    → Distinct xs
    → length xs < fuel
    → (s' : System) × (release_all fuel s sem p ≡ some s') × Released s sem xs s'
unfolding release_all
release_all_from xs s sem p zero chain dis enough = absurd (omega arith)
release_all_from [] s sem p (suc fuel) chain dis enough =
    (s, ground arith, record { inside = λ x t i e. absurd i; outside = λ q n. refl })
release_all_from (x ∷ xs) s sem p (suc fuel) (same, not_main, ne, (t, here, chain)) (fresh, dis)
      enough =
    let s1 = put_thread s x (released sem t) in
    let (s', run, k) =
      release_all_from xs s1 sem t.runq_next fuel
        (Chain-frame s s1 t.runq_next xs refl
          (λ q i. update_ne s.threads x q (some (released sem t)) (λ e. fresh (rw e i))) chain)
        dis (omega arith) in
    (
      s',
      ground (arith, run),
      record {
        inside = inside s' k;
        outside = λ q n.
            k.outside q (λ i. n (inr i))
            ∙ update_ne s.threads x q (some (released sem t)) (λ e. n (inl (sym e)));
      },
    )
  where
    inside :
        (s' : System)
        → Released (put_thread s x (released sem t)) sem xs s'
        → (y : ℕ) (u : Thread) → In y (x ∷ xs)
        → s.threads y ≡ some u
        → s'.threads y ≡ some (released sem u)
    inside s' k y u (inl e) at_y =
        let t_u : t ≡ u = some_inj (sym here ∙ ap s.threads (sym e) ∙ at_y) in
        ap s'.threads e
        ∙ k.outside x fresh
        ∙ update_self s.threads x (some (released sem t))
        ∙ ap (λ w. some (released sem w)) t_u
    inside s' k y u (inr i) at_y =
        k.inside y u i
          (update_ne s.threads x y (some (released sem t)) (λ e. fresh (rw e i)) ∙ at_y)
