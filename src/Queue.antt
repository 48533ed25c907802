-- ===== src/Queue.antt =====
-- The non-blocking queue of arduino/libraries/rtthreads/rtthreads.cpp (thread_queue_*). The four
-- int32_t fields are bit patterns, an element is a pointer (0 is NULL), and `elements` holds the
-- slots of the flexible array behind the header. `none` is a fault: a null queue, or an access
-- outside the array.
pub mod Fifo
pub mod Contents
pub mod Laws
pub mod Runs
use ecp_c.Base.{
  ℕ, ◌+◌, ◌*◌, List, ◌∷◌, Option, some, ◌==◌, ltb, if◌then◌else◌, ◌>>=◌, ◌>>◌, guard, length,
  get_elem?, set, u16, add32, sub32, minus_one32,
}
use ecp_c.System.{System}

-- QUEUE and QUEUE_L
pub record Queue : Type 0 where
  pub stored : ℕ
  pub howmany : ℕ
  pub read_index : ℕ
  pub write_index : ℕ
  pub elements : List ℕ

-- sizeof(void*) is 2 and sizeof(QUEUE) is 16; `size_t` has 16 bits.
abbrev pub queue_bytes : ℕ → ℕ
queue_bytes howmany = u16 (2 * howmany + 16)

-- `malloc n` is the slots of the block that the allocator returns for `n` bytes, `none` for NULL;
-- the code does not test for NULL before it writes the header.
unfoldable pub thread_queue_create : (ℕ → Option (List ℕ)) → ℕ → Option Queue
thread_queue_create malloc howmany = do
  all ← malloc (queue_bytes howmany)
  some (record { stored = 0; howmany = howmany; read_index = 0; write_index = 0; elements = all })

-- The element (0 if there is none) and the queue afterwards. After the increment the read index is
-- compared with 0, as in the source, and not with `howmany`.
unfoldable pub thread_queue_nb_get_element : Queue → Option (ℕ × Queue)
thread_queue_nb_get_element q = if q.stored == 0 then some (0, q) else do
  result ← get_elem? q.elements q.read_index
  let next = add32 q.read_index 1
  some (
    result,
    record q { stored = sub32 q.stored 1; read_index = if next == 0 then q.howmany else next },
  )

-- The result, 0 or -1, and the queue afterwards.
unfoldable pub thread_queue_nb_set_element : Queue → ℕ → Option (ℕ × Queue)
thread_queue_nb_set_element q element = if q.stored == q.howmany then some (minus_one32, q) else do
  guard (ltb q.write_index (length q.elements))
  let next = add32 q.write_index 1
  some (
    0,
    record q {
      stored = add32 q.stored 1;
      write_index = if next == q.howmany then 0 else next;
      elements = set q.elements q.write_index element;
    },
  )

unfoldable pub thread_queue_stored : Queue → ℕ
thread_queue_stored q = q.stored

unfoldable pub thread_queue_size : Queue → ℕ
thread_queue_size q = q.howmany

-- The pointer goes to `free`.
unfoldable pub thread_queue_delete : ℕ → System → System
thread_queue_delete queue s = record s { freed = queue ∷ s.freed }
