-- ===== src/Kernel2/Period/Runs.antt =====
-- The calls of a run leave the period of every thread.
use ecp_c.Base.{ℕ, List, [], ◌∷◌, Option, Ensures, Ensures-bind, Ensures-some}
use ecp_c.System.{Board}
use ecp_c.Kernel2.State.{System, Upcalls}
use ecp_c.Kernel2.Scheduler.{timer2_ovf_return}
use ecp_c.Kernel2.Call.{Call, call, state_of}
use ecp_c.Kernel2.Period.{IsPeriodic}
use ecp_c.Kernel2.Period.Yield.{thread_yield-Periodic}
use ecp_c.Kernel2.Period.Calls.{
  get_current_cost_ticks-Periodic, tick_sleep-Periodic, thread_usleep-Periodic,
  thread_block-Periodic, thread_unblock-Periodic, timer2_ovf-Periodic,
}
use ecp_c.Kernel2.Period.Create.{
  Avoids, thread_create-Periodic, periodic_thread_create-Periodic, sporadic_thread_create-Periodic,
  aperiodic_thread_create-Periodic,
}

-- The call does not make a control block in the place of that at `th`.
abbrev pub Preserves : ℕ → Call → Type 0
Preserves th (Call.create m _ _ _ _ _) = Avoids th m
Preserves th (Call.create_periodic m _ _ _ _ _ _ _ _ _) = Avoids th m
Preserves th (Call.create_sporadic m _ _ _ _ _ _ _ _ _) = Avoids th m
Preserves th (Call.create_aperiodic m _ _ _ _ _ _ _ _) = Avoids th m
Preserves th _ = Unit

abbrev pub AllPreserve : ℕ → List Call → Type 0
AllPreserve th [] = Unit
AllPreserve th (c ∷ cs) = Preserves th c × AllPreserve th cs

module _ (b : Board) (u : Upcalls) (fuel : ℕ) {th period : ℕ} where
  made-Periodic :
      (o : Option (ℕ × System)) {Q : ℕ × System → Type 0}
      → Ensures o (λ r. IsPeriodic th period r.1 × Q r)
      → Ensures (state_of o) (IsPeriodic th period)
  made-Periodic o made = Ensures-bind o made λ r ran k. Ensures-some k.0

  pub call-Periodic :
      (c : Call) (s : System)
      → Preserves th c
      → IsPeriodic th period s
      → Ensures (call b u fuel c s) (IsPeriodic th period)
  unfolding call timer2_ovf_return
  call-Periodic (Call.create m entry stack size priority parm) s avoids k =
      made-Periodic _ (thread_create-Periodic b m avoids s k entry stack size priority parm)
  call-Periodic
        (Call.create_periodic m entry stack size priority offset length deadline cost handler) s
        avoids k =
      made-Periodic _ (
        periodic_thread_create-Periodic b m avoids s k u entry stack size priority offset length
          deadline cost handler)
  call-Periodic
        (Call.create_sporadic m entry stack size priority offset length deadline cost handler) s
        avoids k =
      made-Periodic _ (
        sporadic_thread_create-Periodic b m avoids s k u entry stack size priority offset length
          deadline cost handler)
  call-Periodic (Call.create_aperiodic m entry stack size priority offset deadline cost handler) s
        avoids k =
      made-Periodic _ (
        aperiodic_thread_create-Periodic b m avoids s k u entry stack size priority offset deadline
          cost handler)
  call-Periodic Call.yield s _ k = thread_yield-Periodic b fuel s k
  call-Periodic (Call.sleep ticks) s _ k = tick_sleep-Periodic b fuel ticks s k
  call-Periodic (Call.usleep us) s _ k = thread_usleep-Periodic b fuel us s k
  call-Periodic Call.block s _ k = thread_block-Periodic b fuel s k
  call-Periodic (Call.unblock p) s _ k = thread_unblock-Periodic b fuel p s k
  call-Periodic Call.tick s _ k = timer2_ovf-Periodic b fuel s k
  call-Periodic Call.tick_return s _ k = Ensures-some k
  call-Periodic Call.measure s _ k =
      Ensures-bind _ (get_current_cost_ticks-Periodic s k) λ r ran k'. Ensures-some k'
