-- ===== src/Remove/Unlink.antt =====
-- What `thread_remove` leaves of the run queue.
use ecp_c.Base.{
  ℕ, zero, suc, ◌<◌, ◌≡◌, ◌≢◌, inl, inr, refl, sym, ◌∙◌, List, [], ◌∷◌, some, none, arith, length,
  ◌==◌, if◌then◌else◌, Bool-cases, ==→eq, ==→ne,
}
use mathlib.Core.Path.{subst}
use ecp_c.System.{Thread, System, put_thread}
use ecp_c.Scheduler.Elect.{In, Distinct}
use ecp_c.Scheduler.Chain.{Chain, Chain-frame}
use ecp_c.Remove.{find_previous, thread_remove}

-- The list without `a`.
unfoldable pub drop_one : ℕ → List ℕ → List ℕ
drop_one a [] = []
drop_one a (x ∷ xs) = if x == a then xs else x ∷ drop_one a xs

-- The element before `a`, `p` if `a` is the first.
unfoldable pub before : ℕ → ℕ → List ℕ → ℕ
before a p [] = p
before a p (x ∷ xs) = if x == a then p else before a x xs

module _ (a : ℕ) (x : ℕ) (xs : List ℕ) where
  before-eq : (p : ℕ) → x ≡ a → before a p (x ∷ xs) ≡ p
  unfolding before
  before-eq p e = ground arith

  before-ne : (p : ℕ) → x ≢ a → before a p (x ∷ xs) ≡ before a x xs
  unfolding before
  before-ne p n = ground arith

  pub drop_one-eq : x ≡ a → drop_one a (x ∷ xs) ≡ xs
  unfolding drop_one
  drop_one-eq e = ground arith

  pub drop_one-ne : x ≢ a → drop_one a (x ∷ xs) ≡ x ∷ drop_one a xs
  unfolding drop_one
  drop_one-ne n = ground arith

  In-later : In a (x ∷ xs) → x ≢ a → In a xs
  In-later (inl e) other = absurd (other (sym e))
  In-later (inr j) other = j

find_previous_absent :
    (xs : List ℕ) (s : System) (th p previous fuel : ℕ)
    → Chain s p xs
    → ¬ In th xs
    → length xs < fuel
    → (previous' : ℕ) × (find_previous fuel s th p previous ≡ some (s.thread_main_inf, previous'))
unfolding find_previous
find_previous_absent xs s th p previous zero chain n enough = absurd (omega arith)
find_previous_absent [] s th p previous (suc fuel) chain n enough = (previous, ground arith)
find_previous_absent (x ∷ xs) s th p previous (suc fuel) (same, not_main, ne, (t, here, chain)) n
      enough =
    let (previous', run) =
      find_previous_absent xs s th t.runq_next x fuel chain (λ i. n (inr i)) (omega arith) in
    let other : x ≢ th = λ e. n (inl (sym e)) in (previous', ground (arith, run))

find_previous_present :
    (xs : List ℕ) (s : System) (th p previous fuel : ℕ)
    → Chain s p xs
    → In th xs
    → length xs < fuel
    → find_previous fuel s th p previous ≡ some (th, before th previous xs)
unfolding find_previous
find_previous_present xs s th p previous zero chain i enough = absurd (omega arith)
find_previous_present [] s th p previous (suc fuel) chain i enough = absurd i
find_previous_present (x ∷ xs) s th p previous (suc fuel) (same, not_main, ne, (t, here, chain)) i
      enough =
    elim (Bool-cases (x == th)) [
      | inl e ↦ ground (arith, before-eq th x xs previous)
      | inr other ↦ ground (
        arith,
        other,
        before-ne th x xs previous,
        find_previous_present xs s th t.runq_next x fuel chain
            (In-later th x xs i (==→ne _ _ other)) (omega arith),
      )
    ]

-- A thread that is not in the run queue (main is never found) is not removed, with fuel for it: the answer is -1,
-- and nothing changes.
pub remove_absent :
    (fuel th : ℕ) (s : System) (xs : List ℕ)
    → Chain s s.thread_list xs
    → ¬ In th xs
    → length xs < fuel
    → thread_remove fuel th s ≡ some (0xffff, s)
unfolding thread_remove
remove_absent fuel th s xs chain n enough =
    let (previous', run) =
      find_previous_absent xs s th s.thread_list s.thread_list fuel chain n enough in
    rw run (ground arith)

-- The state after the removal of `th` (block `t`) behind `r` (block `u`).
abbrev after : System → ℕ → ℕ → Thread → Thread → System
after s th r u t =
    let s1 = put_thread s r (record u { runq_next = t.runq_next }) in
    record s1 {
      threads = λ q. if th == q then none else s1.threads q;
      freed = th ∷ t.stack ∷ s.freed;
    }

pub before-In : (th p : ℕ) (xs : List ℕ) → In th xs → In (before th p xs) (p ∷ xs)
before-In th p [] i = absurd i
before-In th p (x ∷ xs) i = elim (Bool-cases (x == th)) [
  | inl e ↦ inl (before-eq th x xs p (==→eq _ _ e))
  | inr other ↦
      subst (λ r. In r (p ∷ x ∷ xs)) (sym (before-ne th x xs p (==→ne _ _ other)))
        (inr (before-In th x xs (In-later th x xs i (==→ne _ _ other))))
]

module _ (s : System) (th r : ℕ) (u t : Thread) where
  after-ne : (q : ℕ) → q ≢ th → q ≢ r → (after s th r u t).threads q ≡ s.threads q
  after-ne q n n' = ground arith

  after-previous :
      r ≢ th → (after s th r u t).threads r ≡ some (record u { runq_next = t.runq_next })
  after-previous n = ground arith

-- The queue behind the thread `x` once `th` is out, where `r` is the thread before `th`.
record Unlinked (s : System) (th x : ℕ) (xs : List ℕ) (r : ℕ) : Type 0 where
  u : Thread
  t : Thread
  at_previous : s.threads r ≡ some u
  at_th : s.threads th ≡ some t
  x' : Thread
  at_x : (after s th r u t).threads x ≡ some x'
  rest : Chain (after s th r u t) x'.runq_next (drop_one th xs)

module _ (s : System) (th x y : ℕ) (ys : List ℕ) {ux ty : Thread} (here : s.threads x ≡ some ux)
    (at_y : s.threads y ≡ some ty) (chain : Chain s ty.runq_next ys) (x_fresh : ¬ In x (y ∷ ys))
    (y_fresh : ¬ In y ys) where
  unlink_next : y ≡ th → Unlinked s th x (y ∷ ys) x
  unlink_next e = record {
    u = ux;
    t = ty;
    at_previous = here;
    at_th = rw (← e) at_y;
    x' = record ux { runq_next = ty.runq_next };
    at_x = after-previous s th x ux ty (λ h. x_fresh (inl (h ∙ sym e)));
    rest = subst (Chain (after s th x ux ty) ty.runq_next) (sym (drop_one-eq th y ys e)) (
        Chain-frame s (after s th x ux ty) ty.runq_next ys refl
          (λ q i.
            after-ne s th x ux ty q (λ h. y_fresh (subst (λ a. In a ys) (h ∙ sym e) i))
              (λ h. x_fresh (inr (subst (λ a. In a ys) h i))))
          chain);
  }

  unlink_later :
      ux.runq_next ≡ y
      → y ≢ s.thread_main_inf
      → y ≢ 0
      → y ≢ th
      → x ≢ th
      → (r : ℕ) → In r (y ∷ ys)
      → Unlinked s th y ys r
      → Unlinked s th x (y ∷ ys) r
  unlink_later next not_main nz ne x_ne r at_r k = record {
    u = k.u;
    t = k.t;
    at_previous = k.at_previous;
    at_th = k.at_th;
    x' = ux;
    at_x =
        after-ne s th r k.u k.t x x_ne (λ h. x_fresh (subst (λ a. In a (y ∷ ys)) (sym h) at_r))
        ∙ here;
    rest =
        subst (Chain (after s th r k.u k.t) ux.runq_next) (sym (drop_one-ne th y ys ne))
          (next, not_main, nz, (k.x', k.at_x, k.rest));
  }

unlink_behind :
    (xs : List ℕ) (s : System) (th x : ℕ) {ux : Thread}
    → s.threads x ≡ some ux
    → Chain s ux.runq_next xs
    → In th xs
    → Distinct (x ∷ xs)
    → Unlinked s th x xs (before th x xs)
unlink_behind [] s th x here chain i dis = absurd i
unlink_behind (y ∷ ys) s th x {ux} here (next, not_main, nz, (ty, at_y, chain)) i (x_fresh, dis) =
    elim (Bool-cases (y == th)) [
      | inl e ↦
          subst (Unlinked s th x (y ∷ ys)) (sym (before-eq th y ys x (==→eq _ _ e)))
            (unlink_next s th x y ys here at_y chain x_fresh dis.0 (==→eq _ _ e))
      | inr other ↦
          let ne = ==→ne _ _ other in
          let j = In-later th y ys i ne in
          subst (Unlinked s th x (y ∷ ys)) (sym (before-ne th y ys x ne)) (
            unlink_later s th x y ys here at_y chain x_fresh dis.0 next not_main nz ne
              (λ h. x_fresh (subst (λ a. In a (y ∷ ys)) (sym h) i)) (before th y ys)
              (before-In th y ys j) (unlink_behind ys s th y at_y chain j dis))
    ]

pub Chain-ne-main :
    (s : System) (p th : ℕ) (xs : List ℕ) → Chain s p xs → In th xs → th ≢ s.thread_main_inf
Chain-ne-main s p th [] chain i h = absurd i
Chain-ne-main s p th (x ∷ xs) (same, not_main, nz, (t, here, chain)) (inl e) h =
    not_main (sym e ∙ h)
Chain-ne-main s p th (x ∷ xs) (same, not_main, nz, (t, here, chain)) (inr i) h =
    Chain-ne-main s t.runq_next th xs chain i h

abbrev without_head : System → ℕ → Thread → System
without_head s th t = record s {
  thread_list = t.runq_next;
  threads = λ q. if th == q then none else s.threads q;
  freed = th ∷ t.stack ∷ s.freed;
}

pub remove_present :
    (fuel th : ℕ) (s : System) (xs : List ℕ)
    → Chain s s.thread_list xs
    → Distinct xs
    → In th xs
    → length xs < fuel
    → (s' : System) × (t : Thread) × (thread_remove fuel th s ≡ some (0, s'))
      × Chain s' s'.thread_list (drop_one th xs)
      × (s.threads th ≡ some t)
      × (s'.threads th ≡ none)
      × (s'.freed ≡ th ∷ t.stack ∷ s.freed)
      × ((q : ℕ) → q ≢ th → q ≢ before th s.thread_list xs → s'.threads q ≡ s.threads q)
unfolding thread_remove
remove_present fuel th s [] chain dis i enough = absurd i
remove_present fuel th s (x ∷ xs) (same, not_main, nz, (t, here, chain)) dis i enough =
    let run =
      find_previous_present (x ∷ xs) s th s.thread_list s.thread_list fuel
        (same, not_main, nz, (t, here, chain)) i enough in
    let away = Chain-ne-main s x th (x ∷ xs) (refl, not_main, nz, (t, here, chain)) i in
    elim (Bool-cases (x == th)) [
      | inl e ↦
          let e' : x ≡ th = ==→eq _ _ e in
          (
            without_head s th t,
            t,
            ground (arith, run, away),
            subst (Chain (without_head s th t) t.runq_next) (sym (drop_one-eq th x xs e')) (
                Chain-frame s (without_head s th t) t.runq_next xs refl
                  (λ q j. ne_none q (λ h. dis.0 (subst (λ a. In a xs) (h ∙ sym e') j))) chain),
            rw (← e') here,
            ground arith,
            refl,
            λ q n n'. ne_none q n,
          )
      | inr other ↦
          let ne : x ≢ th = ==→ne _ _ other in
          let k = unlink_behind xs s th x here chain (In-later th x xs i ne) dis in
          let r = before th x xs in
          (
            after s th r k.u k.t,
            k.t,
            ground (arith, run, away, before-ne th x xs s.thread_list ne, k.at_previous, k.at_th),
            subst (Chain (after s th r k.u k.t) s.thread_list) (sym (drop_one-ne th x xs ne))
                (same, not_main, nz, (k.x', k.at_x, k.rest)),
            k.at_th,
            ground arith,
            refl,
            λ q n n'.
                after-ne s th r k.u k.t q n
                  (λ h. n' (h ∙ sym (before-ne th x xs s.thread_list ne))),
          )
    ]
  where
    ne_none : (q : ℕ) → q ≢ th → (without_head s th t).threads q ≡ s.threads q
    ne_none q n = ground arith
