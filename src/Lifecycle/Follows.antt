-- ===== src/Lifecycle/Follows.antt =====
-- What each call of the library does to the run queue and to the thread that runs.
use ecp_c.Base.{
  ℕ, ◌<◌, ◌≢◌, inl, inr, refl, sym, List, [], ◌∷◌, ◌++◌, Option, some, none, length, Ensures,
  Ensures-bind, Ensures-lookup, Ensures-mono, Ensures-some,
}
use ecp_c.System.{Thread, System, Board}
use ecp_c.Scheduler.Kept.{HandlersKeep}
use ecp_c.Lifecycle.Lands.{HandlersStay}
use ecp_c.Lifecycle.Keeps.{Keeps, Keeps-update, keeps_queue, thread_yield-Keeps}
use ecp_c.Threads.{get_current_cost_ticks, timer2_ovf_return}
use ecp_c.Semaphore.{thread_semaphore_create}
use ecp_c.Remove.Unlink.{drop_one}
use ecp_c.Scheduler.Elect.{In}
use ecp_c.Lifecycle.Circle.{In-either, In-first, In-second}
use mathlib.Core.Path.{subst}
use ecp_c.Lifecycle.Kept.{
  tick_sleep-Keeps, thread_usleep-Keeps, thread_block-Keeps, thread_unblock-Keeps,
  thread_signal-Keeps, thread_ats_signal-Keeps, thread_ats_enable-Keeps, thread_ats_disable-Keeps,
  timer2_ovf-Keeps, thread_semaphore_p-Keeps, thread_semaphore_v-Keeps, thread_semaphore_free-Keeps,
}
use ecp_c.Lifecycle.Queue.{HasQueue, Placed, IsFresh, keeps-HasQueue, created, circle}
use ecp_c.Lifecycle.Create.{
  thread_create-Placed, periodic_thread_create-Placed, sporadic_thread_create-Placed,
  aperiodic_thread_create-Placed,
}
use ecp_c.Lifecycle.Remove.{thread_remove-Placed, drop_one-other}
use ecp_c.Lifecycle.Call.{Call, call, state_of, block_of, queue_after}

-- The run queue after a call, and, if the handlers are as `stay` says and the caller is careful, the
-- thread that runs on its circle.
pub record Follows (stay careful : Type 0) (s : System) (xs ys : List ℕ) (s' : System)
    : Type 0 where
  pub queue : HasQueue s' ys
  pub lands :
      stay → careful → In s.current_thread (circle s xs) → In s'.current_thread (circle s' ys)

-- The thread that runs is not removed.
abbrev pub IsCareful : System → Call → Type 0
IsCareful s (Call.remove th) = th ≢ s.current_thread
IsCareful s _ = Unit

get_current_cost_ticks-Keeps :
    (stay : Type 0) (s : System) → Ensures (get_current_cost_ticks s) (λ r. Keeps stay s r.1)
unfolding get_current_cost_ticks
get_current_cost_ticks-Keeps stay s =
    Ensures-lookup (s.threads s.current_thread)
      λ this here. Ensures-some (Keeps-update s _ s.current_thread _ here refl refl refl refl refl)

semaphore_create-Keeps :
    (stay : Type 0) (at : Option ℕ) (value : ℕ) (s : System)
    → Ensures (thread_semaphore_create at value s) (λ r. Keeps stay s r.1)
unfolding thread_semaphore_create
semaphore_create-Keeps stay at value s = Ensures-lookup at λ sem got.
    Ensures-some (keeps_queue (record { main = refl; head = refl; next = λ q. refl }) refl)

pub Ensures-state {ℓ} :
    {A : Type ℓ} {P : System → Type 0} (o : Option (A × System))
    → Ensures o (λ r. P r.1)
    → Ensures (state_of o) P
Ensures-state o h = Ensures-bind o h λ r ran k. Ensures-some k

-- A call on a well-formed run queue, with fuel for it.
module _ (b : Board) (handlers : HandlersKeep b) (fuel : ℕ) (s : System) (xs : List ℕ)
    (h : HasQueue s xs) where
  same :
      {careful : Type 0} (o : Option System)
      → Ensures o (Keeps (HandlersStay b) s)
      → Ensures o (Follows (HandlersStay b) careful s xs xs)
  same o k =
      Ensures-mono
        (λ s' kept. record {
          queue = keeps-HasQueue kept.queue h;
          lands = λ stay careful i. kept.lands stay xs h i;
        })
        k

  same_state {ℓ} :
      {careful : Type 0} {A : Type ℓ} (o : Option (A × System))
      → Ensures o (λ r. Keeps (HandlersStay b) s r.1)
      → Ensures (state_of o) (Follows (HandlersStay b) careful s xs xs)
  same_state o k = same (state_of o) (Ensures-state o k)

  placed {ℓ} :
      {careful : Type 0} {A : Type ℓ} (ys : List ℕ) (o : Option (A × System))
      → (careful → In s.current_thread (circle s xs) → In s.current_thread (circle s ys))
      → Ensures o (λ r. Placed s ys r.1)
      → Ensures (state_of o) (Follows (HandlersStay b) careful s xs ys)
  placed ys o keep k = Ensures-state o (
      Ensures-mono
        (λ r p. record {
          queue = p.queue;
          lands = λ stay careful i.
              subst (λ m. In (System.current_thread r.1) (ys ++ m ∷ [])) (sym p.main)
                (subst (λ q. In q (circle s ys)) (sym p.current) (keep careful i));
        })
        k)

  created-In :
      (q : ℕ) (block : Option (ℕ × Thread)) (stack : Option ℕ)
      → In q (circle s xs)
      → In q (circle s (created block stack xs))
  created-In q none stack i = i
  created-In q (some (th, g)) none i = i
  created-In q (some (th, g)) (some stack) i = inr i

  drop_one-In : (q th : ℕ) → th ≢ q → In q (circle s xs) → In q (circle s (drop_one th xs))
  drop_one-In q th ne i = elim (In-either q xs (s.thread_main_inf ∷ []) i) [
    | inl j ↦
        In-first q (drop_one th xs) (s.thread_main_inf ∷ [])
          (drop_one-other th q xs j (λ e. ne (sym e)))
    | inr j ↦ In-second q (drop_one th xs) (s.thread_main_inf ∷ []) j
  ]

  pub call-Follows :
      (c : Call)
      → IsFresh s (block_of c)
      → length xs < fuel
      → Ensures (call b fuel c s) (Follows (HandlersStay b) (IsCareful s c) s xs (queue_after c xs))
  unfolding call timer2_ovf_return
  call-Follows (Call.create m entry stack size priority parm) fresh enough =
      placed _ _ (λ _ i. created-In _ m.block _ i)
        (thread_create-Placed b fuel m s xs h fresh entry stack size priority parm)
  call-Follows
        (Call.create_periodic m entry params stack size priority offset period deadline budget
          handler)
        fresh enough =
      placed _ _ (λ _ i. created-In _ m.block _ i)
        (periodic_thread_create-Placed b fuel m s xs h fresh entry params stack size priority offset
          period deadline budget handler)
  call-Follows
        (Call.create_sporadic m entry params stack size priority offset period deadline budget
          policy length_max handler)
        fresh enough =
      placed _ _ (λ _ i. created-In _ m.block _ i)
        (sporadic_thread_create-Placed b fuel m s xs h fresh entry params stack size priority offset
          period deadline budget policy length_max handler)
  call-Follows
        (Call.create_aperiodic m entry params stack size priority offset deadline budget policy
          length_max handler)
        fresh enough =
      placed _ _ (λ _ i. created-In _ m.block _ i)
        (aperiodic_thread_create-Placed b fuel m s xs h fresh entry params stack size priority
          offset deadline budget policy length_max handler)
  call-Follows (Call.remove th) fresh enough =
      placed _ _ (λ ne i. drop_one-In _ th ne i) (thread_remove-Placed fuel th s xs h enough)
  call-Follows Call.yield fresh enough = same _ (thread_yield-Keeps b fuel s handlers)
  call-Follows (Call.sleep ticks) fresh enough = same _ (tick_sleep-Keeps b handlers fuel ticks s)
  call-Follows (Call.usleep us) fresh enough = same _ (thread_usleep-Keeps b handlers fuel us s)
  call-Follows Call.block fresh enough = same _ (thread_block-Keeps b handlers fuel s)
  call-Follows (Call.unblock th) fresh enough = same _ (thread_unblock-Keeps b handlers fuel th s)
  call-Follows (Call.signal th) fresh enough =
      same_state _ (thread_signal-Keeps b handlers fuel th s)
  call-Follows (Call.ats_signal th) fresh enough =
      same_state _ (thread_ats_signal-Keeps b handlers fuel th s)
  call-Follows Call.ats_enable fresh enough = same _ (thread_ats_enable-Keeps b handlers fuel s)
  call-Follows Call.ats_disable fresh enough = same _ (thread_ats_disable-Keeps _ s)
  call-Follows Call.tick fresh enough = same _ (timer2_ovf-Keeps b handlers fuel s)
  call-Follows Call.tick_return fresh enough =
      same _
        (Ensures-some (keeps_queue (record { main = refl; head = refl; next = λ q. refl }) refl))
  call-Follows Call.measure fresh enough = same_state _ (get_current_cost_ticks-Keeps _ s)
  call-Follows (Call.semaphore_create at value) fresh enough =
      same_state _ (semaphore_create-Keeps _ at value s)
  call-Follows (Call.semaphore_p sem) fresh enough =
      same _ (thread_semaphore_p-Keeps b handlers fuel sem s)
  call-Follows (Call.semaphore_v sem) fresh enough =
      same _ (thread_semaphore_v-Keeps b handlers fuel sem s)
  call-Follows (Call.semaphore_free sem) fresh enough =
      same _ (thread_semaphore_free-Keeps _ fuel sem s)
