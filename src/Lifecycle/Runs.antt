-- ===== src/Lifecycle/Runs.antt =====
-- Runs of the library: sequences of calls that return, with any allocator.
use ecp_c.Base.{ℕ, ◌+◌, ◌≤◌, ◌<◌, ◌≡◌, List, [], ◌∷◌, Option, some, none, arith, length}
use ecp_c.System.{Thread, System, Board}
use ecp_c.Scheduler.Kept.{HandlersKeep}
use ecp_c.Lifecycle.Lands.{HandlersStay}
use ecp_c.Remove.Unlink.{drop_one}
use ecp_c.Lifecycle.Queue.{HasQueue, IsFresh, created, circle}
use ecp_c.Scheduler.Elect.{In}
use ecp_c.Lifecycle.Follows.{call-Follows, IsCareful}
use ecp_c.Lifecycle.Call.{Call, call, block_of, queue_after, queue_run}

-- Each call returns, and what `malloc` returned for it was free.
pub data Run (b : Board) (fuel : ℕ) : List Call → System → System → Type 0 where
  stop : {s : System} → Run b fuel [] s s
  step :
      {c : Call} {cs : List Call} {s s1 s2 : System}
      → IsFresh s (block_of c)
      → call b fuel c s ≡ some s1
      → Run b fuel cs s1 s2
      → Run b fuel (c ∷ cs) s s2

length-created :
    (block : Option (ℕ × Thread)) (stack : Option ℕ) (xs : List ℕ)
    → length (created block stack xs) ≤ length xs + 1
length-created none stack xs = omega arith
length-created (some (th, g)) none xs = omega arith
length-created (some (th, g)) (some stack) xs = omega arith

length-drop_one : (a : ℕ) (xs : List ℕ) → length (drop_one a xs) ≤ length xs
unfolding drop_one
length-drop_one a [] = omega arith
length-drop_one a (x ∷ xs) = let rest = length-drop_one a xs in ground (arith, rest)

length-queue_after : (c : Call) (xs : List ℕ) → length (queue_after c xs) ≤ length xs + 1
length-queue_after (Call.create m _ stack _ _ _) xs = length-created m.block _ xs
length-queue_after (Call.create_periodic m _ _ stack _ _ _ _ _ _ _) xs = length-created m.block _ xs
length-queue_after (Call.create_sporadic m _ _ stack _ _ _ _ _ _ _ _ _) xs =
    length-created m.block _ xs
length-queue_after (Call.create_aperiodic m _ _ stack _ _ _ _ _ _ _ _) xs =
    length-created m.block _ xs
length-queue_after (Call.remove th) xs = let k = length-drop_one th xs in omega (arith, k)
length-queue_after _ xs = omega arith

pub length-queue_run :
    (cs : List Call) (xs : List ℕ) → length (queue_run cs xs) ≤ length xs + length cs
length-queue_run [] xs = omega arith
length-queue_run (c ∷ cs) xs =
    let few = length-queue_after c xs in
    let rest = length-queue_run cs (queue_after c xs) in omega (arith, few, rest)

-- From a run queue of different threads that ends at main, with one unit of fuel for each thread and
-- for each call and one more: whatever calls of the library and interrupts follow one another, as
-- long as they return, the error handlers leave the run queue alone and `malloc` returns free
-- addresses, the run queue is again a list of different threads that ends at main. It is the list
-- that the abstract queue has after the same calls.
pub calls_refine :
    (b : Board) (fuel : ℕ) (cs : List Call) (s s' : System) (xs : List ℕ)
    → HandlersKeep b
    → HasQueue s xs
    → length xs + length cs < fuel
    → Run b fuel cs s s'
    → HasQueue s' (queue_run cs xs)
calls_refine b fuel cs s s' xs handlers h enough Run.stop = h
calls_refine b fuel (c ∷ cs) s s' xs handlers h enough (Run.step {s1 = s1} fresh ran run) =
    let k = (call-Follows b handlers fuel s xs h c fresh (omega arith)).holds s1 ran in
    let few = length-queue_after c xs in
    calls_refine b fuel cs s1 s' (queue_after c xs) handlers k.queue (omega (arith, few)) run

-- No call of the run removes the thread that runs.
abbrev pub IsCarefulRun :
    {b : Board} {fuel : ℕ} {cs : List Call} {s s' : System} → Run b fuel cs s s' → Type 0
IsCarefulRun Run.stop = Unit
IsCarefulRun (Run.step {c = c} {s = s} fresh ran run) = IsCareful s c × IsCarefulRun run

pub run_lands :
    (b : Board) (fuel : ℕ) (cs : List Call) (s s' : System) (xs : List ℕ)
    → HandlersKeep b
    → HandlersStay b
    → HasQueue s xs
    → In s.current_thread (circle s xs)
    → length xs + length cs < fuel
    → (run : Run b fuel cs s s') → IsCarefulRun run
    → In s'.current_thread (circle s' (queue_run cs xs))
run_lands b fuel cs s s' xs handlers stay h i enough Run.stop careful = i
run_lands b fuel (c ∷ cs) s s' xs handlers stay h i enough (Run.step {s1 = s1} fresh ran run)
      (first, careful) =
    let k = (call-Follows b handlers fuel s xs h c fresh (omega arith)).holds s1 ran in
    let few = length-queue_after c xs in
    run_lands b fuel cs s1 s' (queue_after c xs) handlers stay k.queue (k.lands stay first i)
      (omega (arith, few)) run careful
