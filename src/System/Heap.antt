-- ===== src/System/Heap.antt =====
-- `thread_t`, the processor, and the state that the operations of rtthreads.cpp pass on.
use ecp_c.Base.{ℕ, ◌≡◌, ◌≢◌, Option, some, ◌==◌, if◌then◌else◌, arith, List}

-- struct thread_t of rtthreads_internals.h
pub record Thread : Type 0 where
  pub runq_next : ℕ
  pub sp : ℕ
  pub stack : ℕ
  pub priority : ℕ
  pub block_pattern : ℕ
  pub ats_active : ℕ
  pub ats_pending : ℕ
  pub ats_max : ℕ
  pub status : ℕ
  pub stack_size : ℕ
  pub ticks_to_wait : ℕ
  pub carry_ticks_to_wait : ℕ
  pub min_period_ticks : ℕ
  pub max_deadline_ticks : ℕ
  pub max_cost_ticks : ℕ
  pub current_cost_ticks : ℕ
  pub offset_ticks : ℕ
  pub mit_policy : ℕ
  pub queue_length_max : ℕ
  pub queue_pending : ℕ
  pub queue_last_input : ℕ
  pub blocked_semaphore : ℕ
  pub executor : ℕ
  pub params_and_data : ℕ
  pub error_handler : ℕ
  pub parm : ℕ
  pub aux1 : ℕ
  pub aux2 : ℕ

-- The values of `status`, SIMPLERTFRAMEWORK_*.
abbrev pub slept : ℕ
slept = 0x00

abbrev pub active : ℕ
active = 0x01

abbrev pub blocked : ℕ
blocked = 0x02

abbrev pub sem_blocked : ℕ
sem_blocked = 0x04

abbrev pub norm_prio : ℕ
norm_prio = 2

abbrev pub overrun_prio : ℕ
overrun_prio = 3

-- The numbers handed to an error handler.
abbrev pub deadline_miss : ℕ
deadline_miss = 0x01

abbrev pub cost_overun : ℕ
cost_overun = 0x03

abbrev pub ats_signal : ℕ
ats_signal = 0x04

abbrev pub us_per_tick : ℕ
us_per_tick = 128

abbrev pub yield_max : ℕ
yield_max = 1

-- The AVR core: registers r0 to r31, status register, stack pointer, program counter, data memory.
pub record Cpu : Type 0 where
  pub regs : ℕ → ℕ
  pub sreg : ℕ
  pub sp : ℕ
  pub pc : ℕ
  pub ram : ℕ → ℕ

-- `freed` lists the pointers handed to `free`, the last one first.
pub record System : Type 0 where
  pub cpu : Cpu
  pub threads : ℕ → Option Thread
  pub semaphores : ℕ → Option ℕ
  pub global_thread_tick_counter : ℕ
  pub tick_counter_last_cost : ℕ
  pub tick_counter_previous : ℕ
  pub carry_tick_counter : ℕ
  pub yield : ℕ
  pub thread_list : ℕ
  pub current_thread : ℕ
  pub thread_main_inf : ℕ
  pub next_thread : ℕ
  pub freed : List ℕ

-- What the library does not define. The addresses are the linker's, RAMEND is that of avr/io.h.
-- `clobber` is what the compiled `change_high` leaves in the registers, and `spill` the memory after
-- the call's own use of the stack, `spill_size` bytes from the stack pointer downwards. The last two
-- run a function of the sketch, which may call the library.
pub record Board : Type 0 where
  pub px_current_tcb : ℕ
  pub px_current_tcb_aux : ℕ
  pub return_address : ℕ
  pub periodic_pattern : ℕ
  pub ramend : ℕ
  pub clobber : Cpu → ℕ → ℕ
  pub spill : Cpu → ℕ → ℕ
  pub spill_size : ℕ
  pub error_handler : ℕ → ℕ → System → Option System
  pub executor : ℕ → System → Option System

module _ {ℓ} {A : Type ℓ} where
  abbrev pub update : (ℕ → A) → ℕ → A → ℕ → A
  update f p a q = if p == q then a else f q

  pub update_self : (f : ℕ → A) (p : ℕ) (a : A) → update f p a p ≡ a
  update_self f p a = ground arith

  pub update_ne : (f : ℕ → A) (p q : ℕ) (a : A) → p ≢ q → update f p a q ≡ f q
  update_ne f p q a h = ground arith

-- A write through a pointer to a control block.
abbrev pub put_thread : System → ℕ → Thread → System
put_thread s p t = record s { threads = update s.threads p (some t) }

abbrev pub put_semaphore : System → ℕ → ℕ → System
put_semaphore s p v = record s { semaphores = update s.semaphores p (some v) }
