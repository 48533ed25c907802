-- ===== src/Lifecycle/Queue.antt =====
-- A well-formed run queue, and the creation of threads.
use ecp_c.Base.{
  ℕ, ◌≡◌, ◌≢◌, sym, ap, ◌∙◌, inl, inr, List, [], ◌∷◌, ◌++◌, Option, some, none, arith, ◌>>=◌,
}
use mathlib.Core.Path.{subst}
use ecp_c.System.{Thread, System}
use ecp_c.Scheduler.Elect.{In, Distinct}
use ecp_c.Scheduler.Chain.{Chain, Chain-frame}
use ecp_c.Scheduler.Kept.{KeepsQueue, next_of, Chain-keeps}

-- The run queue is `xs`, different threads, and then main, which is the last.
pub record HasQueue (s : System) (xs : List ℕ) : Type 0 where
  pub chain : Chain s s.thread_list xs
  pub distinct : Distinct xs
  pub main_last : next_of s s.thread_main_inf ≡ some 0
  pub main_ne : s.thread_main_inf ≢ 0

pub keeps-HasQueue :
    {s s' : System} {xs : List ℕ} → KeepsQueue s s' → HasQueue s xs → HasQueue s' xs
keeps-HasQueue {s} {s'} {xs} k h = record {
  chain = rw k.head (Chain-keeps s s' s.thread_list xs k h.chain);
  distinct = h.distinct;
  main_last = rw k.main (k.next s.thread_main_inf ∙ h.main_last);
  main_ne = rw k.main h.main_ne;
}

pub head_ne : (s : System) (xs : List ℕ) → HasQueue s xs → s.thread_list ≢ 0
head_ne s [] h e = h.main_ne (sym h.chain ∙ e)
head_ne s (x ∷ xs) h e = let (same, _, ne, _) = h.chain in ne (sym same ∙ e)

pub Chain-live :
    (s : System) (p : ℕ) (xs : List ℕ) → Chain s p xs → (q : ℕ) → In q xs → s.threads q ≢ none
Chain-live s p [] chain q i e = absurd i
Chain-live s p (x ∷ xs) (same, not_main, ne, (t, here, chain)) q (inl i) e = absurd (ground arith)
Chain-live s p (x ∷ xs) (same, not_main, ne, (t, here, chain)) q (inr i) e =
    Chain-live s t.runq_next xs chain q i e

-- The run queue after `thread_create`, where `malloc` returned `block` and the stack is `stack`.
abbrev pub created : Option (ℕ × Thread) → Option ℕ → List ℕ → List ℕ
created none stack xs = xs
created (some (th, g)) none xs = xs
created (some (th, g)) (some stack) xs = th ∷ xs

-- The addresses of the run queue.
abbrev pub circle : System → List ℕ → List ℕ
circle s xs = xs ++ s.thread_main_inf ∷ []

-- What `malloc` returns is not NULL, and no control block.
abbrev pub IsFresh : System → Option (ℕ × Thread) → Type 0
IsFresh s block = (th : ℕ) (g : Thread) → block ≡ some (th, g) → (th ≢ 0) × (s.threads th ≡ none)

-- The thread `t` at the new address `th`, at the head of the queue.
module _ (s : System) (xs : List ℕ) (h : HasQueue s xs) (th : ℕ) (ne : th ≢ 0)
    (fresh : s.threads th ≡ none) where
  not_main : th ≢ s.thread_main_inf
  not_main e = absurd (ground (arith, h.main_last))

  not_listed : ¬ In th xs
  not_listed i = Chain-live s s.thread_list xs h.chain th i fresh

  pub linked-HasQueue :
      (s' : System) (t : Thread)
      → s'.threads th ≡ some t
      → t.runq_next ≡ s.thread_list
      → ((q : ℕ) → q ≢ th → s'.threads q ≡ s.threads q)
      → s'.thread_list ≡ th
      → s'.thread_main_inf ≡ s.thread_main_inf
      → HasQueue s' (th ∷ xs)
  linked-HasQueue s' t at_th next others head main = record {
    chain = (
      head,
      rw main not_main,
      ne,
      (
        t,
        at_th,
        rw next (
            Chain-frame s s' s.thread_list xs main
              (λ q i. others q (λ e. not_listed (subst (λ a. In a xs) e i))) h.chain),
      ),
    );
    distinct = (not_listed, h.distinct);
    main_last = rw main (
        ap (λ o. o >>= λ u. some u.runq_next) (others s.thread_main_inf (λ e. not_main (sym e)))
        ∙ h.main_last);
    main_ne = rw main h.main_ne;
  }

-- A well-formed queue `ys`, with main and the thread that runs as they were.
pub record Placed (s : System) (ys : List ℕ) (s' : System) : Type 0 where
  pub queue : HasQueue s' ys
  pub main : s'.thread_main_inf ≡ s.thread_main_inf
  pub current : s'.current_thread ≡ s.current_thread
