-- ===== src/Scheduler/Chain.antt =====
-- The run queue as a linked list that ends at `thread_main_inf`, as the loops over all threads but
-- main walk it.
use ecp_c.Base.{ℕ, refl, ◌≡◌, ◌≢◌, inl, inr, sym, ◌∙◌, List, [], ◌∷◌, some}
use ecp_c.System.{Thread, System}
use ecp_c.Scheduler.Elect.{In}

-- The run queue from `p` to `thread_main_inf`, main itself left out.
abbrev pub Chain : System → ℕ → List ℕ → Type 0
Chain s p [] = p ≡ s.thread_main_inf
Chain s p (x ∷ xs) =
    (p ≡ x)
    × (x ≢ s.thread_main_inf)
    × (x ≢ 0)
    × ((t : Thread) × (s.threads x ≡ some t) × Chain s t.runq_next xs)

-- The list lies in the control blocks that it goes through.
pub Chain-frame :
    (s s' : System) (p : ℕ) (xs : List ℕ)
    → s'.thread_main_inf ≡ s.thread_main_inf
    → ((q : ℕ) → In q xs → s'.threads q ≡ s.threads q)
    → Chain s p xs
    → Chain s' p xs
Chain-frame s s' p [] main same chain = chain ∙ sym main
Chain-frame s s' p (x ∷ xs) main same (here, not_main, ne, (t, block, chain)) = (
  here,
  (λ e. not_main (e ∙ main)),
  ne,
  (
    t,
    same x (inl refl) ∙ block,
    Chain-frame s s' t.runq_next xs main (λ q i. same q (inr i)) chain,
  ),
)
