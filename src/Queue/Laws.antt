-- ===== src/Queue/Laws.antt =====
-- The queue keeps its invariant, and is a bounded FIFO until the read index has reached the end.
use ecp_c.Base.{
  ℕ, ◌+◌, ◌-◌, ◌*◌, ◌^◌, ◌≤◌, ◌<◌, ◌≡◌, List, [], Option, some, arith, length, length-set,
  get_elem?-eq-some, Returns,
}
use ecp_c.Queue.{
  Queue, thread_queue_create, thread_queue_nb_get_element, thread_queue_nb_set_element,
  thread_queue_stored, thread_queue_size,
}
use ecp_c.Queue.Fifo
use ecp_c.Queue.Fifo.{Op, get_op, set_op, reads, run_queue}
use ecp_c.Queue.Contents.{IsValid, contents, oldest, length-slice, slice_of_ne_zero, slice-set}

-- With an allocator that returns a block of the size asked for, `thread_queue_create` returns a
-- valid and empty queue of the size asked for, if that is below 2 ^ 15 - 8; a request from there to
-- 2 ^ 15 would wrap the 16-bit size.
create-IsValid :
    (malloc : ℕ → Option (List ℕ)) (howmany : ℕ)
    → howmany < 2 ^ 15 - 8
    → ((b : List ℕ) → malloc (2 * howmany + 16) ≡ some b → length b ≡ howmany)
    → {q : Queue} → thread_queue_create malloc howmany ≡ some q
    → IsValid q × (contents q ≡ []) × (thread_queue_stored q ≡ 0) × (thread_queue_size q ≡ howmany)
unfolding thread_queue_create thread_queue_stored thread_queue_size
create-IsValid malloc howmany small block e = grind (arith, block)

-- The result and the queue after a write: the queue is valid, and result and contents are those of
-- the FIFO's write.
abbrev pub AgreesOnSet : Queue → ℕ → ℕ × Queue → Type 0
AgreesOnSet q x p =
    IsValid p.1
    × ((p.0, contents p.1) ≡ Fifo.set q.howmany (contents q) x)
    × (p.1.read_index ≡ q.read_index)
    × (p.1.howmany ≡ q.howmany)

-- The same after a read.
abbrev pub AgreesOnGet : Queue → ℕ × Queue → Type 0
AgreesOnGet q p =
    IsValid p.1
    × ((p.0, contents p.1) ≡ Fifo.get (contents q))
    × (p.1.read_index ≤ q.read_index + 1)
    × (p.1.howmany ≡ q.howmany)

-- A write to a valid queue does what a write to the bounded FIFO of its contents does: it answers
-- 0 and appends the element, or answers -1 and changes nothing if the queue is full. It never
-- leaves the array, and the queue stays valid.
pub set_refines :
    (q : Queue) (x : ℕ) → IsValid q → Returns (thread_queue_nb_set_element q x) (AgreesOnSet q x)
unfolding thread_queue_nb_set_element Fifo.set
set_refines q x v = ground (
  arith,
  length-slice q.elements q.howmany (oldest q) q.stored,
  length-set q.elements q.write_index x,
  slice-set q.elements q.howmany x q.stored (oldest q) q.write_index v.slots,
)

-- While the read index has not reached the end, a read of a valid queue does what a read of the
-- FIFO of its contents does, and the queue stays valid.
pub get_refines :
    (q : Queue)
    → IsValid q
    → q.read_index < q.howmany
    → Returns (thread_queue_nb_get_element q) (AgreesOnGet q)
unfolding thread_queue_nb_get_element Fifo.get
get_refines q v room = ground (
  arith,
  get_elem?-eq-some q.elements q.read_index,
  slice_of_ne_zero q.elements q.howmany (oldest q) q.stored,
)
