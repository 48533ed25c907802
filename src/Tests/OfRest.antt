-- ===== src/Tests/OfRest.antt =====
-- The first thread of the fixtures puts itself to rest; then the timer interrupt switches to main, returns
-- when main is switched back to, and main yields to the second thread.
use ecp_c.Base.{ℕ, ◌≡◌, refl, [], ◌∷◌, List, Option, none, some, arith, some_inj}
use mathlib.Core.Path.{subst}
use ecp_c.System.{Thread, System, slept, blocked, sem_blocked}
use ecp_c.Context.{change_high, do_switch}
use ecp_c.Scheduler.{
  wake, renew, refresh, elect, visit, yield_loop, account, thread_start, thread_yield,
}
use ecp_c.Threads.{sleeping, tick_sleep, thread_block, timer2_ovf, timer2_ovf_return}
use ecp_c.Semaphore.{thread_semaphore_p}
use ecp_c.Lifecycle.Call.{Call, call, block_of}
use ecp_c.Lifecycle.Runs.{Run}
use ecp_c.Lifecycle.Rest.{HandlersSpare, Rests}
use ecp_c.Lifecycle.Rest.Entry.{IsOff, sleep_rests, block_rests, p_rests}
use ecp_c.Tests.Fixtures.{system, board, first}

abbrev later : List Call
later = Call.tick ∷ Call.tick_return ∷ Call.yield ∷ []

abbrev state_of : Option System → System
state_of none = system
state_of (some s) = s

abbrev behind : Call → System → System
behind c s = state_of (call board 3 c s)

-- The states after the call and the first two of the three that follow, and after all.
abbrev rested : Call → System
rested c = behind c system

abbrev ticked : Call → System
ticked c = behind Call.tick (rested c)

abbrev returned : Call → System
returned c = behind Call.tick_return (ticked c)

abbrev after : Call → System
after c = behind Call.yield (returned c)

-- The calls after the first return.
later_returns :
    (c : Call)
    → call board 3 c system ≡ some (rested c)
    → call board 3 Call.tick (rested c) ≡ some (ticked c)
    → call board 3 Call.tick_return (ticked c) ≡ some (returned c)
    → call board 3 Call.yield (returned c) ≡ some (after c)
    → ((th : ℕ) (g : Thread) → block_of c ≡ some (th, g) → ⊥)
    → Run board 3 (c ∷ later) system (after c)
later_returns c parks ticks returns yields none_made =
    Run.step (λ th g e. absurd (none_made th g e)) parks
      (Run.step (λ th g e. absurd (ground arith)) ticks
        (Run.step (λ th g e. absurd (ground arith)) returns
          (Run.step (λ th g e. absurd (ground arith)) yields Run.stop)))

handlers-HandlersSpare : HandlersSpare board 10
handlers-HandlersSpare h e t0 n s s' same k = subst (Rests 10 t0 n) (some_inj same) k

sleep_parks : call board 3 (Call.sleep 5) system ≡ some (rested (Call.sleep 5))
unfolding call tick_sleep sleeping thread_block thread_semaphore_p timer2_ovf timer2_ovf_return
    thread_yield yield_loop visit elect refresh wake renew account thread_start do_switch
    change_high
sleep_parks = refl

sleep_ticks : call board 3 Call.tick (rested (Call.sleep 5)) ≡ some (ticked (Call.sleep 5))
unfolding call tick_sleep sleeping thread_block thread_semaphore_p timer2_ovf timer2_ovf_return
    thread_yield yield_loop visit elect refresh wake renew account thread_start do_switch
    change_high
sleep_ticks = refl

sleep_returns :
    call board 3 Call.tick_return (ticked (Call.sleep 5)) ≡ some (returned (Call.sleep 5))
unfolding call tick_sleep sleeping thread_block thread_semaphore_p timer2_ovf timer2_ovf_return
    thread_yield yield_loop visit elect refresh wake renew account thread_start do_switch
    change_high
sleep_returns = refl

sleep_yields : call board 3 Call.yield (returned (Call.sleep 5)) ≡ some (after (Call.sleep 5))
unfolding call tick_sleep sleeping thread_block thread_semaphore_p timer2_ovf timer2_ovf_return
    thread_yield yield_loop visit elect refresh wake renew account thread_start do_switch
    change_high
sleep_yields = refl

sleep_rests_example : IsOff 10 slept (after (Call.sleep 5))
sleep_rests_example =
    sleep_rests board 3 5 later system (after (Call.sleep 5)) {this = first} handlers-HandlersSpare
      (omega arith) (omega arith) refl (omega arith) (omega arith) (tt, (tt, (tt, tt)))
      (later_returns (Call.sleep 5) sleep_parks sleep_ticks sleep_returns sleep_yields
        (λ th g e. ground arith))

block_parks : call board 3 Call.block system ≡ some (rested Call.block)
unfolding call tick_sleep sleeping thread_block thread_semaphore_p timer2_ovf timer2_ovf_return
    thread_yield yield_loop visit elect refresh wake renew account thread_start do_switch
    change_high
block_parks = refl

block_ticks : call board 3 Call.tick (rested Call.block) ≡ some (ticked Call.block)
unfolding call tick_sleep sleeping thread_block thread_semaphore_p timer2_ovf timer2_ovf_return
    thread_yield yield_loop visit elect refresh wake renew account thread_start do_switch
    change_high
block_ticks = refl

block_returns : call board 3 Call.tick_return (ticked Call.block) ≡ some (returned Call.block)
unfolding call tick_sleep sleeping thread_block thread_semaphore_p timer2_ovf timer2_ovf_return
    thread_yield yield_loop visit elect refresh wake renew account thread_start do_switch
    change_high
block_returns = refl

block_yields : call board 3 Call.yield (returned Call.block) ≡ some (after Call.block)
unfolding call tick_sleep sleeping thread_block thread_semaphore_p timer2_ovf timer2_ovf_return
    thread_yield yield_loop visit elect refresh wake renew account thread_start do_switch
    change_high
block_yields = refl

block_rests_example : IsOff 10 blocked (after Call.block)
block_rests_example =
    block_rests board 3 later system (after Call.block) {this = first} handlers-HandlersSpare
      (omega arith) (omega arith) refl refl (tt, (tt, (tt, tt)))
      (later_returns Call.block block_parks block_ticks block_returns block_yields
        (λ th g e. ground arith))

p_parks : call board 3 (Call.semaphore_p 77) system ≡ some (rested (Call.semaphore_p 77))
unfolding call tick_sleep sleeping thread_block thread_semaphore_p timer2_ovf timer2_ovf_return
    thread_yield yield_loop visit elect refresh wake renew account thread_start do_switch
    change_high
p_parks = refl

p_ticks :
    call board 3 Call.tick (rested (Call.semaphore_p 77)) ≡ some (ticked (Call.semaphore_p 77))
unfolding call tick_sleep sleeping thread_block thread_semaphore_p timer2_ovf timer2_ovf_return
    thread_yield yield_loop visit elect refresh wake renew account thread_start do_switch
    change_high
p_ticks = refl

p_returns :
    call board 3 Call.tick_return (ticked (Call.semaphore_p 77))
    ≡ some (returned (Call.semaphore_p 77))
unfolding call tick_sleep sleeping thread_block thread_semaphore_p timer2_ovf timer2_ovf_return
    thread_yield yield_loop visit elect refresh wake renew account thread_start do_switch
    change_high
p_returns = refl

p_yields :
    call board 3 Call.yield (returned (Call.semaphore_p 77)) ≡ some (after (Call.semaphore_p 77))
unfolding call tick_sleep sleeping thread_block thread_semaphore_p timer2_ovf timer2_ovf_return
    thread_yield yield_loop visit elect refresh wake renew account thread_start do_switch
    change_high
p_yields = refl

p_rests_example : IsOff 10 sem_blocked (after (Call.semaphore_p 77))
p_rests_example =
    p_rests board 3 77 0 later system (after (Call.semaphore_p 77)) {this = first}
      handlers-HandlersSpare (omega arith) (omega arith) refl (omega arith) refl refl
      (tt, (tt, (tt, tt)))
      (later_returns (Call.semaphore_p 77) p_parks p_ticks p_returns p_yields
        (λ th g e. ground arith))
