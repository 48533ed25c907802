-- ===== src/Kernel2/FirstThread.antt =====
-- The first `thread_create` of arduino/context_switch_2_0/context_switch_2_0.ino: it makes the caller
-- the main thread, and the run queue.
use ecp_c.Base.{ℕ, ◌-◌, ◌<◌, ◌≡◌, ◌≢◌, refl, ap, ◌∙◌, some, arith, ◌==◌, if◌then◌else◌, [], ◌∷◌}
use ecp_c.System.{Cpu, Board, update}
use ecp_c.Kernel2.State.{Thread, System, put_thread, cli, sei}
use ecp_c.Kernel2.Switch.{do_switch}
use ecp_c.Kernel2.Scheduler.{thread_start}
use ecp_c.Kernel2.Create.{
  Mallocs, main_block, new_block, link, create_with, create_main, thread_create,
}
use ecp_c.Kernel2.Exchange.{IsReady, do_switch_self}
use ecp_c.Kernel2.Links.{Links, prepared}

-- Readiness is about the stack pointer and the memory.
IsReady-sreg : (b : Board) (c : Cpu) (n : ℕ) → IsReady b c → IsReady b (record c { sreg = n })
IsReady-sreg b c n r = record {
  small = r.small;
  room = r.room;
  linked = r.linked;
  apart = r.apart;
  spilled = r.spilled;
  px_low = r.px_low;
  px_high = r.px_high;
  aux_low = r.aux_low;
  aux_high = r.aux_high;
}

link_lem :
    (th : ℕ) (s : System) {t head : Thread}
    → s.threads th ≡ some t
    → s.threads s.thread_list ≡ some head
    → th ≢ s.thread_list
    → link th s
      ≡ some
          (record (put_thread
            (put_thread s th (record t { runq_next = s.thread_list }))
            s.thread_list
            (record head { runq_prev = th })) { thread_list = th })
unfolding link
link_lem th s at_th at_head ne = ground arith

module _ (b : Board) (m : Mallocs) (entry stack stack_size priority parm : ℕ) (s : System) (th : ℕ)
    (g : Thread) (stack' p : ℕ) (gm : Thread) where
  abbrev before : System
  before = prepared b m entry stack stack_size priority parm s th g stack'

  -- The state of main's switch to itself.
  abbrev entered : System
  entered = record (put_thread (sei (cli before)) p (main_block gm)) {
    thread_main_inf = p;
    thread_list = p;
    current_thread = p;
    next_thread = p;
  }

  thread_create-entered :
      {s2 s3 : System}
      → s.thread_list ≡ 0
      → m.block ≡ some (th, g)
      → (if stack == 0 then m.stack else some stack) ≡ some stack'
      → m.main ≡ some (p, gm)
      → do_switch b entered ≡ some s2
      → link th s2 ≡ some s3
      → thread_create b m entry stack stack_size priority parm s ≡ some (th, s3)
  unfolding thread_create create_with create_main thread_start
  thread_create-entered empty got at_stack got_main run linked = ground arith

  -- Main, after its switch to itself.
  abbrev main_thread : ℕ → Thread
  main_thread v = record (main_block gm) { sp = v }

  abbrev switched : Cpu → ℕ → System
  switched c v = record entered {
    cpu = c;
    threads = update entered.threads p (some (main_thread v));
    current_thread = p;
  }

  abbrev new_thread : Thread
  new_thread = new_block entry stack' stack_size priority parm s.cpu.ram g

  abbrev final : Cpu → ℕ → System
  final c v =
      record (put_thread (put_thread (switched c v) th (record new_thread { runq_next = p })) p
        (record (main_thread v) { runq_prev = th })) { thread_list = th }

  link-switched : (c : Cpu) (v : ℕ) → th ≢ p → link th (switched c v) ≡ some (final c v)
  link-switched c v ne =
      link_lem th (switched c v) {t = new_thread} {head = main_thread v} (ground arith)
        (ground arith) ne

  final-Links : (c : Cpu) (v : ℕ) → th ≢ p → Links (final c v) th (p ∷ [])
  final-Links c v ne =
      let at_p : (final c v).threads p ≡ some (record (main_thread v) { runq_prev = th }) =
        ground arith in
      (
        ne,
        (record new_thread { runq_next = p }, ground arith, refl),
        (record (main_thread v) { runq_prev = th }, at_p, refl),
        (refl, (record (main_thread v) { runq_prev = th }, at_p, refl)),
      )

-- The first `thread_create`, on a system without a run queue, when the allocator gives different
-- blocks for the thread and for main (and a stack, if none is handed in), with room for a frame on
-- the caller's stack: the caller goes on behind its switch to itself, with its registers and its
-- stack pointer, as the main thread. The run queue is doubly linked, and is the new thread and main.
pub thread_create-Links_first :
    (b : Board) (m : Mallocs) (entry stack stack_size priority parm : ℕ) (s : System) (th : ℕ)
    (g : Thread) (stack' p : ℕ) (gm : Thread)
    → s.thread_list ≡ 0
    → m.block ≡ some (th, g)
    → (if stack == 0 then m.stack else some stack) ≡ some stack'
    → m.main ≡ some (p, gm)
    → th ≢ p
    → IsReady b (prepared b m entry stack stack_size priority parm s th g stack').cpu
    → (s' : System) × (thread_create b m entry stack stack_size priority parm s ≡ some (th, s'))
      × (s'.current_thread ≡ p)
      × (s'.thread_main_inf ≡ p)
      × (s'.thread_list ≡ th)
      × Links s' th (p ∷ [])
      × ((i : ℕ) → i < 32 → s'.cpu.regs i ≡ s.cpu.regs i)
      × (s'.cpu.sp ≡ s.cpu.sp)
      × (s'.cpu.pc ≡ b.return_address)
thread_create-Links_first b m entry stack stack_size priority parm s th g stack' p gm empty got
      at_stack got_main ne ready =
    let at : System = entered b m entry stack stack_size priority parm s th g stack' p gm in
    let (s2, run, k) =
      do_switch_self b at (IsReady-sreg b _ at.cpu.sreg ready) {this = main_block gm} (ground arith)
        refl in
    let (regs, pc, _) = k.resumed s.cpu.regs at.cpu.sreg b.return_address k.frame in
    (
      final b m entry stack stack_size priority parm s th g stack' p gm s2.cpu (s.cpu.sp - 35),
      thread_create-entered b m entry stack stack_size priority parm s th g stack' p gm empty got
          at_stack got_main (run ∙ ap some k.state)
          (link-switched b m entry stack stack_size priority parm s th g stack' p gm s2.cpu
            (s.cpu.sp - 35) ne),
      refl,
      refl,
      refl,
      final-Links b m entry stack stack_size priority parm s th g stack' p gm s2.cpu (s.cpu.sp - 35)
          ne,
      regs,
      omega (arith, k.sp, ready.room),
      pc,
    )
