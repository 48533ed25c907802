-- ===== src/Create/First.antt =====
-- A new thread in the run queue, and what its first context switch reads from its stack.
use ecp_c.Base.{
  ℕ, ◌+◌, ◌-◌, ◌*◌, ◌^◌, ◌≤◌, ◌<◌, ◌≡◌, ◌≢◌, refl, List, ◌∷◌, some, arith, ◌==◌, if◌then◌else◌, u16,
}
use ecp_c.System.{Thread, System, Board, active, update_self, put_thread}
use ecp_c.Context.{do_switch}
use ecp_c.Context.Switch.{IsReady, do_switch-other}
use ecp_c.Scheduler.Elect.{In}
use ecp_c.Scheduler.Chain.{Chain, Chain-frame}
use ecp_c.Create.{Mallocs, initial_stack, new_block, with_block, create_main, thread_create}

pub initial_stack-sp :
    (entry stack stack_size : ℕ) (ram : ℕ → ℕ)
    → 7 ≤ stack + stack_size
    → stack + stack_size ≤ 2 ^ 16
    → (initial_stack entry stack stack_size ram).0 + 7 ≡ stack + stack_size
unfolding initial_stack
initial_stack-sp entry stack stack_size ram low high = omega arith

-- For a stack of at least 7 bytes within the 16-bit address space, and a 16-bit entry, the return
-- address that a `ret` at the initial stack pointer would read is the entry.
initial_stack-entry :
    (entry stack stack_size : ℕ) (ram : ℕ → ℕ)
    → 7 ≤ stack + stack_size
    → stack + stack_size ≤ 2 ^ 16
    → entry < 2 ^ 16
    → let (sp, ram') = initial_stack entry stack stack_size ram in
      ram' (sp + 1) * 256 + ram' (sp + 2) ≡ entry
unfolding initial_stack
initial_stack-entry entry stack stack_size ram low high small =
    rw (d7, d6, d5, d4, d3, d2, d1) (ground arith)
  where
    down : ℕ → ℕ
    down a = u16 (a + 0xffff)

    top : ℕ
    top = stack + stack_size

    d1 : down top ≡ top - 1
    d1 = omega arith

    d2 : down (down top) ≡ top - 2
    d2 = omega arith

    d3 : down (down (down top)) ≡ top - 3
    d3 = omega arith

    d4 : down (down (down (down top))) ≡ top - 4
    d4 = omega arith

    d5 : down (down (down (down (down top)))) ≡ top - 5
    d5 = omega arith

    d6 : down (down (down (down (down (down top))))) ≡ top - 6
    d6 = omega arith

    d7 : down (down (down (down (down (down (down top)))))) ≡ top - 7
    d7 = omega arith

-- `thread_create` on a system that has its main thread, when the allocator gives an unused control
-- block (and a stack, if none is handed in): the new thread is active, with the given priority, at
-- the head of the run queue, and every other control block is as it was.
pub create_links :
    (b : Board) (fuel : ℕ) (m : Mallocs) (entry stack stack_size priority parm : ℕ) (s : System)
    (xs : List ℕ) (th : ℕ) (g : Thread) (stack' : ℕ)
    → s.thread_list ≢ 0
    → Chain s s.thread_list xs
    → m.block ≡ some (th, g)
    → th ≢ 0
    → ¬ In th xs
    → th ≢ s.thread_main_inf
    → (if stack == 0 then m.stack else some stack) ≡ some stack'
    → (s' : System) × (t : Thread) × (thread_create b fuel m entry stack stack_size priority parm s
        ≡ some (th, s'))
      × Chain s' s'.thread_list (th ∷ xs)
      × (s'.threads th ≡ some t)
      × ((t.status ≡ active)
          × (t.priority ≡ priority)
          × (t.stack ≡ stack')
          × (t.stack_size ≡ stack_size)
          × (t.sp ≡ (initial_stack entry stack' stack_size s.cpu.ram).0))
      × ((q : ℕ) → q ≢ th → s'.threads q ≡ s.threads q)
unfolding thread_create create_main
create_links b fuel m entry stack stack_size priority parm s xs th g stack' ne chain got nz fresh
      not_main at_stack =
    (
      after,
      linked,
      ground arith,
      (
        refl,
        not_main,
        nz,
        (
          linked,
          at_head,
          Chain-frame s after s.thread_list xs refl (λ q i. untouched q (λ e. fresh (rw e at i)))
              chain,
        ),
      ),
      at_head,
      (refl, refl, refl, refl, refl),
      untouched,
    )
  where
    linked : Thread
    linked = record (new_block entry stack' stack_size priority parm s.cpu.ram g) {
      runq_next = s.thread_list;
    }

    after : System
    after =
        record (put_thread (with_block s th entry stack' stack_size priority parm g) th linked) {
          thread_list = th;
        }

    at_head : after.threads th ≡ some linked
    at_head =
        update_self (with_block s th entry stack' stack_size priority parm g).threads th
          (some linked)

    untouched : (q : ℕ) → q ≢ th → after.threads q ≡ s.threads q
    untouched q n = ground arith

-- The first switch from another thread, with room for a frame, to a new thread whose stack ends at
-- least 30 bytes before the end of the address space, ends with the stack pointer 30 bytes above the end of the
-- thread's stack, and goes on at the address that it reads there: `do_switch` pops a frame of 37
-- bytes, and `thread_create` has pushed 6.
pub first_switch_overruns :
    (b : Board) (s : System) {this new : Thread} (entry : ℕ) (ram : ℕ → ℕ)
    → IsReady b s
    → s.threads s.current_thread ≡ some this
    → s.threads s.next_thread ≡ some new
    → s.current_thread ≢ s.next_thread
    → new.sp ≡ (initial_stack entry new.stack new.stack_size ram).0
    → 7 ≤ new.stack + new.stack_size
    → new.stack + new.stack_size + 30 < 2 ^ 16
    → (s' : System) × (do_switch b s ≡ some s')
      × (s'.cpu.sp ≡ new.stack + new.stack_size + 30)
      × (s'.cpu.pc
          ≡ s'.cpu.ram (new.stack + new.stack_size + 29) * 256
            + s'.cpu.ram (new.stack + new.stack_size + 30))
first_switch_overruns b s {this} {new} entry ram ready live live' ne fresh low high =
    let (s', run, k) = do_switch-other b s ready live live' ne (omega (arith, top)) in
    (s', run, omega (arith, k.sp, top), rw (low_byte, high_byte) at k.pc)
  where
    top : new.sp + 7 ≡ new.stack + new.stack_size
    top =
        omega (arith, fresh, initial_stack-sp entry new.stack new.stack_size ram low (omega arith))

    low_byte : new.sp + 36 ≡ new.stack + new.stack_size + 29
    low_byte = omega (arith, top)

    high_byte : new.sp + 37 ≡ new.stack + new.stack_size + 30
    high_byte = omega (arith, top)
