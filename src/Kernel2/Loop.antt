-- ===== src/Kernel2/Loop.antt =====
-- Runs of the endless loop of `periodic_pattern`, in
-- arduino/context_switch_2_0/context_switch_2_0.ino, with calls of the kernel by other threads and
-- interrupts between its stretches.
use ecp_c.Base.{ℕ, suc, ◌≡◌, List, [], ◌∷◌, Option, some, none}
use ecp_c.System.{Board}
use ecp_c.Kernel2.State.{System, Upcalls}
use ecp_c.Kernel2.Call.{Call, call}
use ecp_c.Kernel2.Pattern.{Point, periodic_pattern}

-- The local `thread_counter_us` at a point, once it is the tick of a release.
abbrev pub release_of : Point → Option ℕ
release_of (Point.released counter) = some counter
release_of (Point.worked counter) = some counter
release_of _ = none

-- A cycle has been worked at the end of the stretch.
abbrev pub count_cycle : Point → ℕ → ℕ
count_cycle (Point.worked counter) n = suc n
count_cycle _ n = n

-- The thread at `this` goes on when it runs; between, others call the kernel. The index counts the
-- cycles.
pub data Loop (b : Board) (u : Upcalls) (fuel this : ℕ)
    : ℕ → List Call → Point → System → Point → System → Type 0 where
  stop : {p : Point} {s : System} → Loop b u fuel this 0 [] p s p s
  go_on :
      {n : ℕ} {cs : List Call} {p p1 q : Point} {s s1 s2 : System}
      → s.current_thread ≡ this
      → periodic_pattern b u fuel this p s ≡ some (p1, s1)
      → Loop b u fuel this n cs p1 s1 q s2
      → Loop b u fuel this (count_cycle p1 n) cs p s q s2
  other :
      {n : ℕ} {c : Call} {cs : List Call} {p q : Point} {s s1 s2 : System}
      → call b u fuel c s ≡ some s1
      → Loop b u fuel this n cs p s1 q s2
      → Loop b u fuel this n (c ∷ cs) p s q s2
