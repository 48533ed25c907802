-- ===== src/Pattern/Pending/Runs.antt =====
-- The calls of a run, on the pending releases of a thread.
use ecp_c.Base.{
  ℕ, suc, ◌+◌, ◌<◌, ◌^◌, ◌≡◌, ◌≢◌, refl, List, [], ◌∷◌, arith, Bool-cases, inl, inr, ◌==◌,
  if◌then◌else◌, Ensures, Ensures-mono, Ensures-some,
}
use ecp_c.System.{System, Board}
use ecp_c.Threads.{timer2_ovf_return}
use ecp_c.Lifecycle.Call.{Call, call}
use ecp_c.Lifecycle.Follows.{Ensures-state}
use ecp_c.Lifecycle.Rest.Create.{Avoids}
use ecp_c.Pattern.Pending.{HasPending, HandlersLeave}
use ecp_c.Pattern.Pending.Calls.{
  thread_ats_disable-Pending, get_current_cost_ticks-Pending, semaphore_create-Pending,
  thread_semaphore_free-Pending, thread_remove-Pending, yield-Pending, tick_sleep-Pending,
  thread_usleep-Pending, thread_block-Pending, thread_unblock-Pending, thread_ats_signal-Pending,
  thread_ats_enable-Pending, thread_semaphore_p-Pending, thread_semaphore_v-Pending,
  timer2_ovf-Pending,
}
use ecp_c.Pattern.Pending.Signal.{thread_signal-Pending}
use ecp_c.Pattern.Pending.Create.{
  thread_create-Pending, periodic_thread_create-Pending, sporadic_thread_create-Pending,
  aperiodic_thread_create-Pending,
}

-- The call neither makes a control block in the place of that at `th` nor removes it.
abbrev pub Preserves : ℕ → Call → Type 0
Preserves th (Call.create m _ _ _ _ _) = Avoids th m
Preserves th (Call.create_periodic m _ _ _ _ _ _ _ _ _ _) = Avoids th m
Preserves th (Call.create_sporadic m _ _ _ _ _ _ _ _ _ _ _ _) = Avoids th m
Preserves th (Call.create_aperiodic m _ _ _ _ _ _ _ _ _ _ _) = Avoids th m
Preserves th (Call.remove p) = p ≢ th
Preserves th _ = Unit

abbrev pub AllPreserve : ℕ → List Call → Type 0
AllPreserve th [] = Unit
AllPreserve th (c ∷ cs) = Preserves th c × AllPreserve th cs

-- The signals to the thread at `th`.
abbrev pub count_signal : (th : ℕ) → Call → ℕ → ℕ
count_signal th (Call.signal p) n = if p == th then suc n else n
count_signal th _ n = n

abbrev pub signals : ℕ → List Call → ℕ
signals th [] = 0
signals th (c ∷ cs) = count_signal th c (signals th cs)

pub count_signal_plus :
    (th : ℕ) (c : Call) (m n : ℕ) → count_signal th c m + n ≡ m + count_signal th c n
count_signal_plus th (Call.signal p) m n = elim (Bool-cases (p == th)) [
  | inl e ↦ rw e (omega arith)
  | inr e ↦ rw e (omega arith)
]
count_signal_plus th _ m n = refl

pub suc-count_signal :
    (th : ℕ) (c : Call) (n : ℕ) → suc (count_signal th c n) ≡ count_signal th c (suc n)
suc-count_signal th (Call.signal p) n = elim (Bool-cases (p == th)) [
  | inl e ↦ rw e refl
  | inr e ↦ rw e refl
]
suc-count_signal th _ n = refl

module _ (b : Board) (fuel : ℕ) {th : ℕ} (null : th ≢ 0) (leave : HandlersLeave b th) where
  pub call-Pending :
      (c : Call) {low high : ℕ} (s : System)
      → high + 1 < 2 ^ 32
      → Preserves th c
      → HasPending th low high s
      → Ensures (call b fuel c s) (HasPending th low (count_signal th c high))
  unfolding call timer2_ovf_return
  call-Pending (Call.create m entry stack size priority parm) s small avoids k = Ensures-state _ (
      Ensures-mono (λ r made. made.0)
        (thread_create-Pending b leave fuel m avoids s k entry stack size priority parm))
  call-Pending
        (Call.create_periodic m entry params stack size priority offset period deadline budget
          handler)
        s small avoids k =
      Ensures-state _ (
        Ensures-mono (λ r made. made.0)
          (periodic_thread_create-Pending b leave fuel m avoids s k entry params stack size priority
            offset period deadline budget handler))
  call-Pending
        (Call.create_sporadic m entry params stack size priority offset period deadline budget
          policy length_max handler)
        s small avoids k =
      Ensures-state _ (
        Ensures-mono (λ r made. made.0)
          (sporadic_thread_create-Pending b leave fuel m avoids s k entry params stack size priority
            offset period deadline budget policy length_max handler))
  call-Pending
        (Call.create_aperiodic m entry params stack size priority offset deadline budget policy
          length_max handler)
        s small avoids k =
      Ensures-state _ (
        Ensures-mono (λ r made. made.0)
          (aperiodic_thread_create-Pending b leave fuel m avoids s k entry params stack size
            priority offset deadline budget policy length_max handler null))
  call-Pending (Call.remove p) s small ne k = Ensures-state _ (thread_remove-Pending fuel p s ne k)
  call-Pending Call.yield s small _ k = yield-Pending b leave fuel s k
  call-Pending (Call.sleep duration) s small _ k = tick_sleep-Pending b leave fuel duration s k
  call-Pending (Call.usleep us) s small _ k = thread_usleep-Pending b leave fuel us s k
  call-Pending Call.block s small _ k = thread_block-Pending b leave fuel s k
  call-Pending (Call.unblock p) s small _ k = thread_unblock-Pending b leave fuel p s k
  call-Pending (Call.signal p) s small _ k =
      Ensures-state _ (thread_signal-Pending b leave fuel p s small k)
  call-Pending (Call.ats_signal p) s small _ k =
      Ensures-state _ (thread_ats_signal-Pending b leave fuel p s k)
  call-Pending Call.ats_enable s small _ k = thread_ats_enable-Pending b leave fuel s k
  call-Pending Call.ats_disable s small _ k = thread_ats_disable-Pending s k
  call-Pending Call.tick s small _ k = timer2_ovf-Pending b leave fuel s k
  call-Pending Call.tick_return s small _ k = Ensures-some k
  call-Pending Call.measure s small _ k = Ensures-state _ (get_current_cost_ticks-Pending s k)
  call-Pending (Call.semaphore_create at value) s small _ k =
      Ensures-state _ (semaphore_create-Pending at value s k)
  call-Pending (Call.semaphore_p sem) s small _ k = thread_semaphore_p-Pending b leave fuel sem s k
  call-Pending (Call.semaphore_v sem) s small _ k = thread_semaphore_v-Pending b leave fuel sem s k
  call-Pending (Call.semaphore_free sem) s small _ k = thread_semaphore_free-Pending fuel sem s k
