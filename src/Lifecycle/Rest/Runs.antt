-- ===== src/Lifecycle/Rest/Runs.antt =====
-- Runs of the library in which a thread rests from the first call to the last.
use ecp_c.Base.{ℕ, suc, ◌≢◌, ◌⊎◌, refl, List, [], ◌∷◌, Ensures, Ensures-mono, Ensures-some}
use ecp_c.System.{Thread, System, Board, blocked}
use ecp_c.Threads.{timer2_ovf_return}
use ecp_c.Lifecycle.Call.{Call, call}
use ecp_c.Lifecycle.Follows.{Ensures-state}
use ecp_c.Lifecycle.Runs.{Run}
use ecp_c.Lifecycle.Rest.{Rests, HandlersSpare, Sits-frame}
use ecp_c.Lifecycle.Rest.Quiet.{
  thread_ats_disable-Rests, get_current_cost_ticks-Rests, semaphore_create-Rests,
  thread_semaphore_free-Rests, thread_remove-Rests,
}
use ecp_c.Lifecycle.Rest.Calls.{
  yield-Rests, tick_sleep-Rests, thread_usleep-Rests, thread_block-Rests, thread_unblock-Rests,
  thread_signal-Rests, thread_ats_signal-Rests, thread_ats_enable-Rests, thread_semaphore_p-Rests,
  thread_semaphore_v-Rests, timer2_ovf-Rests,
}
use ecp_c.Lifecycle.Rest.Create.{
  Avoids, thread_create-Rests, periodic_thread_create-Rests, sporadic_thread_create-Rests,
  aperiodic_thread_create-Rests,
}

-- The call is none of those that may end the rest of the thread at `th`, which has the status
-- `status` and `sem` as the semaphore it waits for.
abbrev pub Spares : (th status sem : ℕ) → Call → Type 0
Spares th status sem (Call.create m _ _ _ _ _) = Avoids th m
Spares th status sem (Call.create_periodic m _ _ _ _ _ _ _ _ _ _) = Avoids th m
Spares th status sem (Call.create_sporadic m _ _ _ _ _ _ _ _ _ _ _ _) = Avoids th m
Spares th status sem (Call.create_aperiodic m _ _ _ _ _ _ _ _ _ _ _) = Avoids th m
Spares th status sem (Call.remove p) = p ≢ th
Spares th status sem (Call.unblock p) = (p ≢ th) ⊎ (status ≢ blocked)
Spares th status sem (Call.signal p) = (p ≢ th) ⊎ (status ≢ blocked)
Spares th status sem (Call.semaphore_v p) = p ≢ sem
Spares th status sem (Call.semaphore_free p) = p ≢ sem
Spares th status sem _ = Unit

abbrev pub AllSpare : (th status sem : ℕ) → List Call → Type 0
AllSpare th status sem [] = Unit
AllSpare th status sem (c ∷ cs) = Spares th status sem c × AllSpare th status sem cs

-- The timer interrupts of a run.
abbrev pub count_tick : Call → ℕ → ℕ
count_tick Call.tick n = suc n
count_tick _ n = n

abbrev pub ticks : List Call → ℕ
ticks [] = 0
ticks (c ∷ cs) = count_tick c (ticks cs)

module _ (b : Board) (fuel : ℕ) {th : ℕ} {t0 : Thread} {n : ℕ} (spare : HandlersSpare b th)
    (s : System) where
  call-Rests :
      (c : Call)
      → Rests th t0 (count_tick c n) s
      → Spares th t0.status t0.blocked_semaphore c
      → Ensures (call b fuel c s) (Rests th t0 n)
  unfolding call timer2_ovf_return
  call-Rests (Call.create m entry stack size priority parm) k avoids = Ensures-state _ (
      Ensures-mono (λ r k'. k'.0)
        (thread_create-Rests b spare fuel m avoids s k entry stack size priority parm))
  call-Rests
        (Call.create_periodic m entry params stack size priority offset period deadline budget
          handler)
        k avoids =
      Ensures-state _ (
        periodic_thread_create-Rests b spare fuel m avoids s k entry params stack size priority
          offset period deadline budget handler)
  call-Rests
        (Call.create_sporadic m entry params stack size priority offset period deadline budget
          policy length_max handler)
        k avoids =
      Ensures-state _ (
        sporadic_thread_create-Rests b spare fuel m avoids s k entry params stack size priority
          offset period deadline budget policy length_max handler)
  call-Rests
        (Call.create_aperiodic m entry params stack size priority offset deadline budget policy
          length_max handler)
        k avoids =
      Ensures-state _ (
        aperiodic_thread_create-Rests b spare fuel m avoids s k entry params stack size priority
          offset deadline budget policy length_max handler)
  call-Rests (Call.remove p) k ne = Ensures-state _ (thread_remove-Rests fuel p s ne k)
  call-Rests Call.yield k _ = yield-Rests b spare fuel s k
  call-Rests (Call.sleep duration) k _ = tick_sleep-Rests b spare fuel duration s k
  call-Rests (Call.usleep us) k _ = thread_usleep-Rests b spare fuel us s k
  call-Rests Call.block k _ = thread_block-Rests b spare fuel s k
  call-Rests (Call.unblock p) k spared = thread_unblock-Rests b spare fuel p s spared k
  call-Rests (Call.signal p) k spared =
      Ensures-state _ (thread_signal-Rests b spare fuel p s spared k)
  call-Rests (Call.ats_signal p) k _ = Ensures-state _ (thread_ats_signal-Rests b spare fuel p s k)
  call-Rests Call.ats_enable k _ = thread_ats_enable-Rests b spare fuel s k
  call-Rests Call.ats_disable k _ = thread_ats_disable-Rests s k
  call-Rests Call.tick k _ = timer2_ovf-Rests b spare fuel s k
  call-Rests Call.tick_return k _ =
      Ensures-some (record { sits = Sits-frame k.sits _ refl refl refl; off = k.off })
  call-Rests Call.measure k _ = Ensures-state _ (get_current_cost_ticks-Rests s k)
  call-Rests (Call.semaphore_create at value) k _ =
      Ensures-state _ (semaphore_create-Rests at value s k)
  call-Rests (Call.semaphore_p sem) k _ = thread_semaphore_p-Rests b spare fuel sem s k
  call-Rests (Call.semaphore_v sem) k ne = thread_semaphore_v-Rests b spare fuel sem s ne k
  call-Rests (Call.semaphore_free sem) k ne = thread_semaphore_free-Rests fuel sem s ne k

-- A thread that is blocked, waits or sleeps, is not main and does not run goes on so over any run of
-- calls that return and that spare it: none removes it or makes a control block in its place, unblocks
-- or signals it if it is blocked, or does V on or frees the semaphore it waits for; and, if it sleeps,
-- has more ticks than are left. The error handlers do not disturb it.
pub run-Rests :
    (b : Board) (fuel th : ℕ) (t0 : Thread) (cs : List Call) (s s' : System)
    → HandlersSpare b th
    → Rests th t0 (ticks cs) s
    → AllSpare th t0.status t0.blocked_semaphore cs
    → Run b fuel cs s s'
    → Rests th t0 0 s'
run-Rests b fuel th t0 cs s s' spare k spared Run.stop = k
run-Rests b fuel th t0 (c ∷ cs) s s' spare k spared (Run.step {s1 = s1} fresh ran run) =
    let (first, later) = spared in
    run-Rests b fuel th t0 cs s1 s' spare ((call-Rests b fuel spare s c k first).holds s1 ran) later
      run
