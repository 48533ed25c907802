-- ===== src/Lifecycle/Keeps.antt =====
-- What an operation that neither creates nor removes threads keeps: the order of the run queue, and
-- that the thread that runs is on its circle, if the handlers are as `stay` says.
use ecp_c.Base.{ℕ, ◌≡◌, refl, sym, ap, List, ◌∷◌, [], ◌++◌, some, Ensures}
use mathlib.Core.Path.{subst}
use ecp_c.System.{Thread, System, Board, update}
use ecp_c.Scheduler.{thread_yield}
use ecp_c.Scheduler.Elect.{In}
use ecp_c.Scheduler.Kept
use ecp_c.Scheduler.Kept.{KeepsQueue, HandlersKeep}
use ecp_c.Lifecycle.Queue.{HasQueue, keeps-HasQueue, circle}
use ecp_c.Lifecycle.Lands.{HandlersStay, thread_yield-In}

pub record Keeps (stay : Type 0) (s s' : System) : Type 0 where
  pub queue : KeepsQueue s s'
  pub lands :
      stay
      → (xs : List ℕ) → HasQueue s xs
      → In s.current_thread (circle s xs)
      → In s'.current_thread (circle s' xs)

circle-eq : {s s' : System} (xs : List ℕ) → KeepsQueue s s' → circle s xs ≡ circle s' xs
circle-eq xs k = ap (λ m. xs ++ m ∷ []) (sym k.main)

pub keeps_queue :
    {stay : Type 0} {s s' : System}
    → KeepsQueue s s'
    → s'.current_thread ≡ s.current_thread
    → Keeps stay s s'
keeps_queue {s = s} {s' = s'} k current = record {
  queue = k;
  lands = λ ok xs h i.
      subst (In s'.current_thread) (circle-eq xs k)
        (subst (λ a. In a (circle s xs)) (sym current) i);
}

pub Keeps-refl : {stay : Type 0} (s : System) → Keeps stay s s
Keeps-refl s = keeps_queue (Kept.keeps_refl s) refl

pub Keeps-trans :
    {stay : Type 0} {s s1 s2 : System} → Keeps stay s s1 → Keeps stay s1 s2 → Keeps stay s s2
Keeps-trans k l = record {
  queue = Kept.keeps_trans k.queue l.queue;
  lands = λ ok xs h i. l.lands ok xs (keeps-HasQueue k.queue h) (k.lands ok xs h i);
}

-- A control block is written back with its link.
pub Keeps-update :
    {stay : Type 0} (s s' : System) (p : ℕ) {t : Thread} (t' : Thread)
    → s.threads p ≡ some t
    → t'.runq_next ≡ t.runq_next
    → s'.threads ≡ update s.threads p (some t')
    → s'.thread_main_inf ≡ s.thread_main_inf
    → s'.thread_list ≡ s.thread_list
    → s'.current_thread ≡ s.current_thread
    → Keeps stay s s'
Keeps-update s s' p t' at_p same e main head current =
    keeps_queue (Kept.keeps_update s s' p t' at_p same e main head) current

pub thread_yield-Keeps :
    (b : Board) (fuel : ℕ) (s : System)
    → HandlersKeep b
    → Ensures (thread_yield b fuel s) (Keeps (HandlersStay b) s)
thread_yield-Keeps b fuel s handlers = record {
  holds = λ s' ran.
      let k : KeepsQueue s s' = (Kept.thread_yield-keeps b handlers fuel s).holds s' ran in
      record {
        queue = k;
        lands = λ ok xs h i.
            subst (In s'.current_thread) (circle-eq xs k)
              ((thread_yield-In b ok fuel s xs h i).holds s' ran);
      };
}
