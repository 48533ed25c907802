-- ===== src/Pattern/Loop.antt =====
-- Runs of the endless loop of `periodic_pattern`, in arduino/libraries/rtthreads/rtthreads.cpp, with
-- calls of the library by other threads and interrupts between its stretches.
use ecp_c.Base.{ℕ, suc, ◌≡◌, List, [], ◌∷◌, some}
use ecp_c.System.{System, Board}
use ecp_c.Lifecycle.Call.{Call, call}
use ecp_c.Pattern.{Point, periodic_pattern}

-- A cycle has been worked at the end of the stretch.
abbrev pub count_cycle : Point → ℕ → ℕ
count_cycle Point.worked n = suc n
count_cycle _ n = n

-- The thread at `this` goes on when it runs; between, others call the library. The index counts the
-- cycles.
pub data Loop (b : Board) (fuel this : ℕ)
    : ℕ → List Call → Point → System → Point → System → Type 0 where
  stop : {p : Point} {s : System} → Loop b fuel this 0 [] p s p s
  go_on :
      {n : ℕ} {cs : List Call} {p p1 q : Point} {s s1 s2 : System}
      → s.current_thread ≡ this
      → periodic_pattern b fuel this p s ≡ some (p1, s1)
      → Loop b fuel this n cs p1 s1 q s2
      → Loop b fuel this (count_cycle p1 n) cs p s q s2
  other :
      {n : ℕ} {c : Call} {cs : List Call} {p q : Point} {s s1 s2 : System}
      → call b fuel c s ≡ some s1
      → Loop b fuel this n cs p s1 q s2
      → Loop b fuel this n (c ∷ cs) p s q s2
