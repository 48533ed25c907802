-- ===== src/Lifecycle/Remove.antt =====
-- Removal keeps the run queue well-formed.
use ecp_c.Base.{
  ℕ, ◌<◌, ◌≡◌, ◌≢◌, ◌⊎◌, refl, sym, ap, ◌∙◌, inl, inr, List, [], ◌∷◌, some, length, ◌==◌, ◌>>=◌,
  Bool-cases, ==→eq, ==→ne, Ensures, Ensures-bind, Ensures-lookup, Ensures-if, Ensures-some,
}
use mathlib.Core.Path.{subst}
use ecp_c.System.{Thread, System}
use ecp_c.Scheduler.Elect.{In, Distinct}
use ecp_c.Scheduler.Chain.{Chain}
use ecp_c.Remove.{find_previous, unlink, thread_remove}
use ecp_c.Remove.Unlink.{
  drop_one, drop_one-eq, drop_one-ne, before, before-In, Chain-ne-main, remove_absent,
  remove_present,
}
use ecp_c.Lifecycle.Queue.{HasQueue, Placed}

present_or_absent : (a : ℕ) (xs : List ℕ) → In a xs ⊎ (¬ In a xs)
present_or_absent a [] = inr λ i. i
present_or_absent a (x ∷ xs) = elim (Bool-cases (a == x)) [
  | inl e ↦ inl (inl (==→eq a x e))
  | inr n ↦ elim (present_or_absent a xs) [
    | inl i ↦ inl (inr i)
    | inr j ↦ inr λ k. elim k [ inl e ↦ ==→ne a x n e | inr i ↦ j i ]
  ]
]

-- The head of a run queue that is not empty is not main.
head_ne-main :
    (s : System) (p th : ℕ) (xs : List ℕ) → Chain s p xs → In th xs → p ≢ s.thread_main_inf
head_ne-main s p th [] chain i e = absurd i
head_ne-main s p th (x ∷ xs) (same, not_main, _, _) i e = not_main (sym same ∙ e)

drop_one-absent : (a : ℕ) (xs : List ℕ) → ¬ In a xs → drop_one a xs ≡ xs
unfolding drop_one
drop_one-absent a [] n = refl
drop_one-absent a (x ∷ xs) n =
    drop_one-ne a x xs (λ e. n (inl (sym e)))
    ∙ ap (λ ys. x ∷ ys) (drop_one-absent a xs (λ i. n (inr i)))

drop_one-In : (a q : ℕ) (xs : List ℕ) → In q (drop_one a xs) → In q xs
unfolding drop_one
drop_one-In a q [] i = i
drop_one-In a q (x ∷ xs) i = elim (Bool-cases (x == a)) [
  | inl e ↦ inr (subst (In q) (drop_one-eq a x xs (==→eq x a e)) i)
  | inr n ↦ elim (subst (In q) (drop_one-ne a x xs (==→ne x a n)) i) [
    | inl e ↦ inl e
    | inr j ↦ inr (drop_one-In a q xs j)
  ]
]

drop_one-Distinct : (a : ℕ) (xs : List ℕ) → Distinct xs → Distinct (drop_one a xs)
unfolding drop_one
drop_one-Distinct a [] d = d
drop_one-Distinct a (x ∷ xs) (fresh, d) = elim (Bool-cases (x == a)) [
  | inl e ↦ subst Distinct (sym (drop_one-eq a x xs (==→eq x a e))) d
  | inr n ↦
      subst Distinct (sym (drop_one-ne a x xs (==→ne x a n)))
        ((λ i. fresh (drop_one-In a x xs i)), drop_one-Distinct a xs d)
]

pub drop_one-other : (a q : ℕ) (xs : List ℕ) → In q xs → q ≢ a → In q (drop_one a xs)
unfolding drop_one
drop_one-other a q [] i n = i
drop_one-other a q (x ∷ xs) i n = elim (Bool-cases (x == a)) [
  | inl e ↦
      subst (In q) (sym (drop_one-eq a x xs (==→eq x a e)))
        (elim i [ inl f ↦ absurd (n (f ∙ ==→eq x a e)) | inr j ↦ j ])
  | inr other ↦
      subst (In q) (sym (drop_one-ne a x xs (==→ne x a other)))
        (elim i [ inl f ↦ inl f | inr j ↦ inr (drop_one-other a q xs j n) ])
]

-- Main and the thread that runs.
abbrev Stays : System → System → Type 0
Stays s s' = (s'.thread_main_inf ≡ s.thread_main_inf) × (s'.current_thread ≡ s.current_thread)

unlink-Stays :
    (s : System) (th previous : ℕ) (t : Thread) → Ensures (unlink s th previous t) (Stays s)
unfolding unlink
unlink-Stays s th previous t =
    Ensures-if (th == s.thread_list) (Ensures-some (refl, refl))
      (Ensures-lookup (s.threads previous) λ u here. Ensures-some (refl, refl))

remove-Stays : (fuel th : ℕ) (s : System) → Ensures (thread_remove fuel th s) (λ r. Stays s r.1)
unfolding thread_remove
remove-Stays fuel th s =
    Ensures-lookup (find_previous fuel s th s.thread_list s.thread_list) λ r found.
      Ensures-if (r.0 == s.thread_main_inf) (Ensures-some (refl, refl)) (
        Ensures-lookup (s.threads th) λ t here.
          Ensures-bind (unlink s th r.1 t) (unlink-Stays s th r.1 t) λ s1 ran e. Ensures-some e)

module _ (fuel th : ℕ) (s : System) (xs : List ℕ) (h : HasQueue s xs)
    (enough : length xs < fuel) where
  before_ne-main : In th xs → s.thread_main_inf ≢ before th s.thread_list xs
  before_ne-main i e = elim (before-In th s.thread_list xs i) [
    | inl first ↦ head_ne-main s s.thread_list th xs h.chain i (sym (e ∙ first))
    | inr j ↦ Chain-ne-main s s.thread_list (before th s.thread_list xs) xs h.chain j (sym e)
  ]

  -- With fuel for the run queue `thread_remove` returns, and its queue is without the thread.
  pub thread_remove-Placed : Ensures (thread_remove fuel th s) (λ r. Placed s (drop_one th xs) r.1)
  thread_remove-Placed = elim (present_or_absent th xs) [
    | inr absent ↦ rw (remove_absent fuel th s xs h.chain absent enough) (
        Ensures-some (record {
          queue = subst (HasQueue s) (sym (drop_one-absent th xs absent)) h;
          main = refl;
          current = refl;
        }))
    | inl present ↦
        let (s', t, run, chain, _, _, _, others) =
          remove_present fuel th s xs h.chain h.distinct present enough in
        let (main, current) = (remove-Stays fuel th s).holds (0, s') run in
        let kept : s'.threads s.thread_main_inf ≡ s.threads s.thread_main_inf =
          others s.thread_main_inf
            (λ e. Chain-ne-main s s.thread_list th xs h.chain present (sym e))
            (before_ne-main present) in
        rw run (
          Ensures-some (record {
            queue = record {
              chain = chain;
              distinct = drop_one-Distinct th xs h.distinct;
              main_last = rw main (ap (λ o. o >>= λ u. some u.runq_next) kept ∙ h.main_last);
              main_ne = rw main h.main_ne;
            };
            main = main;
            current = current;
          }))
  ]
