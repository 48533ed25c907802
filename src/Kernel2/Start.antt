-- ===== src/Kernel2/Start.antt =====
-- `thread_create` of arduino/context_switch_2_0/context_switch_2_0.ino, and the first switch to the
-- thread that it made.
use ecp_c.Base.{
  ℕ, ◌+◌, ◌^◌, ◌≤◌, ◌<◌, ◌≡◌, ◌≢◌, inl, inr, sym, ap, some, arith, ◌==◌, if◌then◌else◌, Bool-cases,
}
use ecp_c.System.{Board}
use ecp_c.Context.Layout.{Outside}
use ecp_c.Kernel2.State.{Thread, System}
use ecp_c.Kernel2.Scheduler.{thread_start}
use ecp_c.Kernel2.Create.{Mallocs, initial_stack, thread_create}
use ecp_c.Kernel2.Layout.{IsFrame-eq}
use ecp_c.Kernel2.Exchange.{IsReady, do_switch-other}
use ecp_c.Kernel2.First.{zeros, initial_stack-sp, initial_stack-IsFrame}
use ecp_c.Kernel2.Links.{prepared, created, linked, thread_create-linked}

module _ (b : Board) (m : Mallocs) (entry stack stack_size priority parm : ℕ) (s : System) (th : ℕ)
    (g : Thread) (stack' : ℕ) where
  -- The new stack is no part of what the next switch stores.
  abbrev pub IsApart : Type 0
  IsApart =
      (q : ℕ)
      → stack' + stack_size ≤ q + 35
      → q < stack' + stack_size
      → Outside s.cpu.sp (35 + b.spill_size) q
        × (q ≢ b.px_current_tcb_aux)
        × (q ≢ b.px_current_tcb_aux + 1)

  abbrev made : Thread → System
  made head = linked b m entry stack stack_size priority parm s th g stack' head

  live_current :
      (head : Thread) {this : Thread}
      → s.threads s.current_thread ≡ some this
      → th ≢ s.current_thread
      → (t : Thread) × ((made head).threads s.current_thread ≡ some t)
  live_current head {this} live ne = elim (Bool-cases (s.thread_list == s.current_thread)) [
    | inl same ↦ (record head { runq_prev = th }, ground arith)
    | inr other ↦ (this, ground arith)
  ]

  switch_starts :
      (head : Thread) {this : Thread}
      → th ≢ s.thread_list
      → s.threads s.current_thread ≡ some this
      → th ≢ s.current_thread
      → 36 ≤ stack' + stack_size
      → stack' + stack_size ≤ 2 ^ 16
      → entry < 2 ^ 16
      → IsReady b (prepared b m entry stack stack_size priority parm s th g stack').cpu
      → IsApart
      → (s2 : System) × (thread_start b (made head) th ≡ some s2)
        × (s2.current_thread ≡ th)
        × (s2.cpu.pc ≡ entry)
        × (s2.cpu.sp + 1 ≡ stack' + stack_size)
        × ((i : ℕ) → i < 32 → s2.cpu.regs i ≡ 0)
        × (s2.cpu.sreg ≡ 0)
  unfolding thread_start
  switch_starts head ne_list live ne low high small ready apart =
      let (t, live') = live_current head live ne in
      let new = created b m entry stack stack_size priority parm s th g stack' in
      let at_end = initial_stack-sp entry stack' stack_size s.cpu.ram low high in
      let (s2, run, k) =
        do_switch-other b (record (made head) { next_thread = th }) ready {this = t} {next = new}
          live' (ground arith) (λ e. ne (sym e)) (omega (arith, at_end)) in
      let (regs, pc, sreg) = k.resumed zeros 0 entry (
        IsFrame-eq (initial_stack entry stack' stack_size s.cpu.ram).1 s2.cpu.ram new.sp
          (λ q above under.
            let (out, n, n') = apart q (omega (arith, at_end)) (omega (arith, at_end)) in
            k.memory q out n n')
          (initial_stack-IsFrame entry stack' stack_size s.cpu.ram low high small)) in
      (s2, run, ap System.current_thread k.state, pc, omega (arith, k.sp, at_end), regs, sreg)

-- A thread that is created on a system with a run queue, by an allocator that gives a block outside
-- the queue, and then started by another thread, starts at its entry: with the stack pointer at the
-- last byte of its stack, its registers and its status register 0 (interrupts off). The stack has at
-- least 36 bytes, and lies apart from what the switch stores.
pub thread_create-thread_start :
    (b : Board) (m : Mallocs) (entry stack stack_size priority parm : ℕ) (s : System) (th : ℕ)
    (g : Thread) (stack' : ℕ) {head this : Thread}
    → s.thread_list ≢ 0
    → m.block ≡ some (th, g)
    → (if stack == 0 then m.stack else some stack) ≡ some stack'
    → s.threads s.thread_list ≡ some head
    → th ≢ s.thread_list
    → s.threads s.current_thread ≡ some this
    → th ≢ s.current_thread
    → 36 ≤ stack' + stack_size
    → stack' + stack_size ≤ 2 ^ 16
    → entry < 2 ^ 16
    → IsReady b (prepared b m entry stack stack_size priority parm s th g stack').cpu
    → IsApart b m entry stack stack_size priority parm s th g stack'
    → (s1 : System) × (s2 : System) × (thread_create b m entry stack stack_size priority parm s
        ≡ some (th, s1))
      × (thread_start b s1 th ≡ some s2)
      × (s2.current_thread ≡ th)
      × (s2.cpu.pc ≡ entry)
      × (s2.cpu.sp + 1 ≡ stack' + stack_size)
      × ((i : ℕ) → i < 32 → s2.cpu.regs i ≡ 0)
      × (s2.cpu.sreg ≡ 0)
thread_create-thread_start b m entry stack stack_size priority parm s th g stack' {head} {this}
      nonempty got at_stack at_head ne_list live ne low high small ready apart =
    let (s2, run, current, pc, sp, regs, sreg) =
      switch_starts b m entry stack stack_size priority parm s th g stack' head ne_list live ne low
        high small ready apart in
    (
      linked b m entry stack stack_size priority parm s th g stack' head,
      s2,
      thread_create-linked b m entry stack stack_size priority parm s th g stack' nonempty got
          at_stack at_head ne_list,
      run,
      current,
      pc,
      sp,
      regs,
      sreg,
    )
