-- ===== src/Kernel2/State.antt =====
-- `struct thread_t` and the globals of arduino/context_switch_2_0/context_switch_2_0.ino. The
-- values of `flags`, RTARDUINO_*, are those of the library's `status`.
use ecp_c.Base.{ℕ, ◌+◌, ◌%◌, Option, some, List}
use ecp_c.System.{Cpu, update}

pub record Thread : Type 0 where
  pub runq_prev : ℕ
  pub runq_next : ℕ
  pub sp : ℕ
  pub stack : ℕ
  pub priority : ℕ
  pub block_pattern : ℕ
  pub flags : ℕ
  pub stack_size : ℕ
  pub ticks_to_wait : ℕ
  pub carry_ticks_to_wait : ℕ
  pub min_period_ticks : ℕ
  pub max_deadline_ticks : ℕ
  pub max_cost_ticks : ℕ
  pub current_cost_ticks : ℕ
  pub offset_ticks : ℕ
  pub executor : ℕ
  pub error_handler : ℕ
  pub parm : ℕ

-- `freed` lists the pointers handed to `free`, the last one first.
pub record System : Type 0 where
  pub cpu : Cpu
  pub threads : ℕ → Option Thread
  pub tick_counter_us : ℕ
  pub tick_counter_last_cost_us : ℕ
  pub tick_counter_previous_us : ℕ
  pub carry_tick_counter : ℕ
  pub yield : ℕ
  pub thread_list : ℕ
  pub current_thread : ℕ
  pub thread_main_inf : ℕ
  pub next_thread : ℕ
  pub freed : List ℕ

-- The functions of the sketch that the kernel calls through pointers, and the address of
-- `periodic_pattern`.
pub record Upcalls : Type 0 where
  pub periodic_pattern : ℕ
  pub error_handler : ℕ → ℕ → System → Option System
  pub executor : ℕ → System → Option System

abbrev pub period_miss : ℕ
period_miss = 0x00

abbrev pub put_thread : System → ℕ → Thread → System
put_thread s p t = record s { threads = update s.threads p (some t) }

-- Bit 7 of the status register enables interrupts.
abbrev pub cli : System → System
cli s = record s { cpu = record s.cpu { sreg = s.cpu.sreg % 128 } }

abbrev pub sei : System → System
sei s = record s { cpu = record s.cpu { sreg = s.cpu.sreg % 128 + 128 } }
