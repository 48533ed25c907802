-- ===== src/Kernel2/Links.antt =====
-- The doubly linked run queue of arduino/context_switch_2_0/context_switch_2_0.ino, and what
-- `thread_create` makes of it.
use ecp_c.Base.{
  ℕ, ◌≡◌, ◌≢◌, inl, inr, refl, sym, ap, ◌∙◌, List, [], ◌∷◌, some, some_inj, arith, ◌==◌,
  if◌then◌else◌,
}
use mathlib.Core.Path.{subst}
use ecp_c.System.{Board}
use ecp_c.Scheduler.Elect.{In, Distinct}
use ecp_c.Kernel2.State.{Thread, System, put_thread, cli, sei}
use ecp_c.Kernel2.Create.{
  Mallocs, new_block, with_block, create_with, create_main, link, thread_create,
}

-- The run queue from `x` on, through `xs`, to main: each thread points to the next one, the next one
-- points back, and main points to none.
abbrev pub Links : System → ℕ → List ℕ → Type 0
Links s x [] = (x ≡ s.thread_main_inf) × ((t : Thread) × (s.threads x ≡ some t) × (t.runq_next ≡ 0))
Links s x (y ∷ ys) =
    (x ≢ s.thread_main_inf)
    × ((t : Thread) × (s.threads x ≡ some t) × (t.runq_next ≡ y))
    × ((u : Thread) × (s.threads y ≡ some u) × (u.runq_prev ≡ x))
    × Links s y ys

-- The links lie in the control blocks, and those of `x` in its `runq_next`.
Links-frame :
    (s s' : System) (x : ℕ) (xs : List ℕ)
    → s'.thread_main_inf ≡ s.thread_main_inf
    → ((q : ℕ) → In q xs → s'.threads q ≡ s.threads q)
    → ((t : Thread)
        → s.threads x ≡ some t
        → (t' : Thread) × (s'.threads x ≡ some t') × (t'.runq_next ≡ t.runq_next))
    → Links s x xs
    → Links s' x xs
Links-frame s s' x [] main same head (is_main, (t, here, last)) =
    let (t', here', next) = head t here in (is_main ∙ sym main, (t', here', next ∙ last))
Links-frame s s' x (y ∷ ys) main same head (not_main, (t, here, next), (u, at_y, back), rest) =
    let (t', here', next') = head t here in
    (
      (λ e. not_main (e ∙ main)),
      (t', here', next' ∙ next),
      (u, same y (inl refl) ∙ at_y, back),
      Links-frame s s' y ys main (λ q i. same q (inr i)) (λ v at. (v, same y (inl refl) ∙ at, refl))
          rest,
    )

module _ (b : Board) (m : Mallocs) (entry stack stack_size priority parm : ℕ) (s : System) (th : ℕ)
    (g : Thread) (stack' : ℕ) where
  abbrev pub prepared : System
  prepared = with_block (sei (cli s)) th entry stack' stack_size priority parm g

  abbrev pub created : Thread
  created = record (new_block entry stack' stack_size priority parm s.cpu.ram g) {
    runq_next = s.thread_list;
  }

  abbrev pub linked : Thread → System
  linked head =
      record (put_thread (put_thread prepared th created) s.thread_list
        (record head { runq_prev = th })) { thread_list = th }

  linked-ne :
      (head : Thread) (q : ℕ) → q ≢ th → q ≢ s.thread_list → (linked head).threads q ≡ s.threads q
  linked-ne head q n n' = ground arith

  pub thread_create-linked :
      {head : Thread}
      → s.thread_list ≢ 0
      → m.block ≡ some (th, g)
      → (if stack == 0 then m.stack else some stack) ≡ some stack'
      → s.threads s.thread_list ≡ some head
      → th ≢ s.thread_list
      → thread_create b m entry stack stack_size priority parm s ≡ some (th, linked head)
  unfolding thread_create create_with create_main link
  thread_create-linked {head} nonempty got at_stack here ne = ground arith

-- `thread_create` keeps the doubly linked run queue, over different control blocks, when the
-- allocator gives a block that is not in it (and a stack, if none is handed in): the new thread is
-- its head and the old head points back to it. No other control block changes.
pub thread_create-Links :
    (b : Board) (m : Mallocs) (entry stack stack_size priority parm : ℕ) (s : System) (xs : List ℕ)
    (th : ℕ) (g : Thread) (stack' : ℕ)
    → s.thread_list ≢ 0
    → Links s s.thread_list xs
    → Distinct (s.thread_list ∷ xs)
    → m.block ≡ some (th, g)
    → (if stack == 0 then m.stack else some stack) ≡ some stack'
    → ¬ In th (s.thread_list ∷ xs)
    → th ≢ s.thread_main_inf
    → (s' : System) × (thread_create b m entry stack stack_size priority parm s ≡ some (th, s'))
      × (s'.thread_list ≡ th)
      × Links s' th (s.thread_list ∷ xs)
      × Distinct (th ∷ s.thread_list ∷ xs)
      × ((q : ℕ) → q ≢ th → q ≢ s.thread_list → s'.threads q ≡ s.threads q)
thread_create-Links b m entry stack stack_size priority parm s xs th g stack' nonempty links dis got
      at_stack fresh not_main =
    let (head, here) = first xs links in
    let s' : System = linked b m entry stack stack_size priority parm s th g stack' head in
    let t : Thread = created b m entry stack stack_size priority parm s th g stack' in
    let ne : th ≢ s.thread_list = λ e. fresh (inl e) in
    (
      s',
      thread_create-linked b m entry stack stack_size priority parm s th g stack' nonempty got
          at_stack here ne,
      refl,
      (
        not_main,
        (t, ground arith, refl),
        (record head { runq_prev = th }, ground arith, refl),
        Links-frame s s' s.thread_list xs refl
            (λ q i.
              linked-ne b m entry stack stack_size priority parm s th g stack' head q
                (λ e. fresh (inr (subst (λ a. In a xs) e i)))
                (λ e. dis.0 (subst (λ a. In a xs) e i)))
            (λ u at. (
              record head { runq_prev = th },
              ground arith,
              ap Thread.runq_next (some_inj (sym here ∙ at)),
            ))
            links,
      ),
      (fresh, dis),
      λ q n n'. linked-ne b m entry stack stack_size priority parm s th g stack' head q n n',
    )
  where
    first :
        (xs : List ℕ) → Links s s.thread_list xs → (t : Thread) × (s.threads s.thread_list ≡ some t)
    first [] (is_main, (t, here, last)) = (t, here)
    first (y ∷ ys) (other, (t, here, next), back, rest) = (t, here)
