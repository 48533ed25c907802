-- ===== src/System.antt =====
-- The state of arduino/libraries/rtthreads: the control blocks and semaphores on the heap, the
-- static variables of rtthreads.cpp, and the processor with its memory. An address is a number, 0 is
-- NULL, and an address without a cell is not allocated. Words are bit patterns.
mod Heap
unfoldable pub use Heap.*
