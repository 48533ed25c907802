-- ===== src/Lib.antt =====
-- The rtthreads library of ECP-C, a preemptive real-time kernel for the AVR Arduino: threads
-- with priorities, cost budgets and periods, a run queue, context switches, semaphores, event
-- queues and asynchronous signals, and the two kernels that came before it. The library is in
-- arduino/libraries/rtthreads (rtthreads.cpp, rtthreads.h, rtthreads_internals.h).
--
-- The parts, and the files that model them:
--   Base       the helpers: Boolean tests, Option, lists, machine words
--   System     struct thread_t, the globals of the library, the AVR core, and the parameters
--   Context    do_switch, instruction by instruction, and change_high
--   Scheduler  thread_yield and thread_start
--   Threads    time, tick_sleep, thread_usleep, thread_block, thread_unblock, thread_signal, the
--              ATS operations, and the interrupt of timer 2
--   Semaphore  thread_semaphore_create, _P, _V and _free
--   Create     thread_create and the periodic, sporadic and aperiodic forms of it
--   Remove     thread_remove
--   Lifecycle  runs: sequences of the calls above and of timer interrupts, the run queue, and in
--              Lifecycle/Rest a thread that sleeps, is blocked or waits while others run
--   Pattern    periodic_pattern, the entry of every periodic, sporadic or aperiodic thread; in
--              Pattern/Loop its loop with calls of other threads in between, and in
--              Pattern/Pending the releases that are pending over such a run
--   Queue      thread_queue_create, _nb_set_element, _nb_get_element, _stored, _size
--              and thread_queue_delete
--   Memory     thread_read_* and thread_write_*
--   Kernel2    the kernel before the library, in the one file of
--              arduino/context_switch_2_0/context_switch_2_0.ino: its state (State), do_switch
--              (Switch), the run queue, sleep and timer (Scheduler), creation (Create) and
--              periodic_pattern (Pattern), with its loop (Loop) and its releases (Period)
--   Kernel1    the kernel before that one, in arduino/context_switch/context_switch.ino, by the
--              definitions of Kernel2 where the code is the same (the text of
--              arduino/context_switch_1_0 is that of context_switch_2_0)
--   Tests      test runs, and the theorems at concrete inputs
--
-- How they interact. Every operation is a function from `System` to `Option System` (with a
-- result beside it, where the function has one); `none` is a read or write through a pointer
-- that no object stands at, or the end of the fuel. A pointer is its address; control blocks and
-- semaphores are in a partial map from addresses, so that two pointers to one block share it.
-- Whatever blocks, wakes or ticks ends in `thread_yield`, which walks the circular run queue,
-- and then in `do_switch`. The code after a switch runs in the thread that is switched to, and
-- the code that a thread has after its own call runs when it is switched back to: that code is
-- modelled as a function of its own (`timer2_ovf_return`, `end_cycle`), and what the thread that
-- is switched to does next, once `thread_start` has delivered its signals, is not part of the
-- call.
--
-- Numbers. A machine word is a natural number with its wrap-around written out; a signed word is
-- its bit pattern. An `int` has 16 bits, as has a pointer.
--
-- Fuel. The loops over the run queue and the one that delivers signals take fuel. One unit for
-- each thread of the queue and one more are enough for a walk, which the theorems state as a
-- hypothesis on the length of the queue and prove to be enough.
--
-- Parameters. `Board` has the addresses that the linker gives, what the call of the compiled
-- `change_high` leaves in the registers and below the stack pointer, and the functions of the
-- sketch (error handlers and thread bodies). In a run the handlers neither create nor remove
-- threads, nor switch, nor touch what a theorem follows through the run (the control block of a
-- thread that rests, the pending releases or the period of a thread), and a new control block
-- is at an address that is not in use. What
-- `malloc` returns is an argument of the functions that call it. A new block keeps what was in
-- memory in the fields that the source does not set.
--
-- Not modelled. The set-up of timer 2 and of external interrupts, which writes hardware
-- registers or calls the Arduino core; the use case at the end of the file, which the
-- preprocessor leaves out; the sketches, older copies of rtthreads.cpp and Java programs of the
-- repository. The endless loop of `periodic_pattern` is a step from one of its points to the
-- next, and a run of it any number of such steps, with calls of other threads and interrupts
-- between them; the work of a cycle is one step. An interrupt does not occur within an operation: the source has those that change the run queue, a
-- semaphore or an event queue in ATOMIC_BLOCK.
pub mod Base
pub mod Queue
pub mod System
pub mod Context
pub mod Scheduler
pub mod Threads
pub mod Semaphore
pub mod Create
pub mod Remove
pub mod Lifecycle
pub mod Memory
pub mod Pattern
pub mod Kernel1
pub mod Kernel2
pub mod Tests
