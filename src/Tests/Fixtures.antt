-- ===== src/Tests/Fixtures.antt =====
-- A small system: two threads and main, the first of the two running.
use ecp_c.Base.{ℕ, ◌+◌, ◌-◌, Option, some, none, [], ◌==◌, if◌then◌else◌}
use ecp_c.System.{Thread, Cpu, System, Board, active, sem_blocked, update}

abbrev pub blank : Thread
blank = record {
  runq_next = 0;
  sp = 0;
  stack = 0;
  priority = 0;
  block_pattern = 0;
  ats_active = 0;
  ats_pending = 0;
  ats_max = 0;
  status = active;
  stack_size = 0;
  ticks_to_wait = 0;
  carry_ticks_to_wait = 0;
  min_period_ticks = 0;
  max_deadline_ticks = 0;
  max_cost_ticks = 0xffff_ffff;
  current_cost_ticks = 0;
  offset_ticks = 0;
  mit_policy = 0;
  queue_length_max = 0;
  queue_pending = 0;
  queue_last_input = 0;
  blocked_semaphore = 0;
  executor = 0;
  params_and_data = 0;
  error_handler = 0;
  parm = 0;
  aux1 = 0;
  aux2 = 0;
}

-- The handlers of the sketch do nothing.
abbrev pub board : Board
board = record {
  px_current_tcb = 0x100;
  px_current_tcb_aux = 0x102;
  return_address = 0x1234;
  periodic_pattern = 0x2345;
  ramend = 0x8ff;
  clobber = λ c r. 0x55;
  spill = λ c. update (update c.ram c.sp 0x78) (c.sp - 1) 0x56;
  spill_size = 2;
  error_handler = λ f e s. some s;
  executor = λ f s. some s;
}

abbrev pub memory : ℕ → ℕ
memory q = if q == 0x100 then 0x02 else if q == 0x101 then 0x01 else 0

abbrev pub cpu : Cpu
cpu = record { regs = λ r. r + 7; sreg = 0x83; sp = 2000; pc = 0; ram = memory }

abbrev pub first : Thread
first = record blank { runq_next = 20; priority = 9; sp = 1900 }

abbrev pub second : Thread
second = record blank { runq_next = 30; priority = 5; sp = 1500; stack = 1300; stack_size = 207 }

abbrev pub main : Thread
main = record blank { priority = 2; sp = 1100 }

abbrev pub no_threads : ℕ → Option Thread
no_threads q = none

abbrev pub system : System
system = record {
  cpu = cpu;
  threads = update (update (update no_threads 30 (some main)) 20 (some second)) 10 (some first);
  semaphores = update (λ q. none) 77 (some 0);
  global_thread_tick_counter = 50;
  tick_counter_last_cost = 40;
  tick_counter_previous = 49;
  carry_tick_counter = 0;
  yield = 0;
  thread_list = 10;
  current_thread = 10;
  thread_main_inf = 30;
  next_thread = 20;
  freed = [];
}

-- The second thread waits for the semaphore 77.
abbrev pub waiting : System
waiting = record system {
  threads =
      update system.threads 20
        (some (record second { blocked_semaphore = 77; status = sem_blocked }));
}
