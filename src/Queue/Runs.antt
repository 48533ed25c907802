-- ===== src/Queue/Runs.antt =====
-- Sequences of calls on the queue: a FIFO for as many reads as there are slots, and a fault after.
use ecp_c.Base.{
  ℕ, get_elem?, get_elem?-eq-some, ◌-◌, ◌+◌, ◌≤◌, ◌≡◌, refl, List, [], ◌∷◌, none, some, arith,
  get_elem?-eq-none, Returns-eq-some,
}
use ecp_c.Queue.{Queue, thread_queue_nb_get_element, thread_queue_nb_set_element}
use ecp_c.Queue.Fifo
use ecp_c.Queue.Fifo.{Op, get_op, set_op, reads, run_queue}
use ecp_c.Queue.Contents.{IsValid, contents}
use ecp_c.Queue.Laws.{AgreesOnGet, AgreesOnSet, get_refines, set_refines}

-- Whatever a client does, a valid queue answers as the bounded FIFO of its contents, as long as the
-- reads do not take the read index past the end of the array.
pub run_refines :
    (ops : List Op) (q : Queue)
    → IsValid q
    → q.read_index + reads ops ≤ q.howmany
    → run_queue q ops ≡ some (Fifo.run q.howmany (contents q) ops)
unfolding run_queue Fifo.run
run_refines [] q v room = refl
run_refines (get_op ∷ ops) q v room =
    let (p, e, (v', f, i, c)) =
      Returns-eq-some (thread_queue_nb_get_element q) (AgreesOnGet q)
        (get_refines q v (omega arith)) in
    ground (arith, e, f, run_refines ops p.1 v' (omega arith))
run_refines (set_op x ∷ ops) q v room =
    let (p, e, (v', f, i, c)) =
      Returns-eq-some (thread_queue_nb_set_element q x) (AgreesOnSet q x) (set_refines q x v) in
    ground (arith, e, f, run_refines ops p.1 v' (omega arith))

-- A valid queue that holds two elements at least, with its read index at the last slot: the next read
-- is answered with that slot, and the one after it faults, as the read index does not go back to 0.
pub get_overruns :
    (q : Queue)
    → IsValid q
    → q.read_index + 1 ≡ q.howmany
    → 2 ≤ q.stored
    → (x : ℕ) × (q' : Queue) × (get_elem? q.elements q.read_index ≡ some x)
      × (thread_queue_nb_get_element q ≡ some (x, q'))
      × (q'.stored + 1 ≡ q.stored)
      × (thread_queue_nb_get_element q' ≡ none)
unfolding thread_queue_nb_get_element
get_overruns q v e many =
    let (x, at) = get_elem?-eq-some q.elements q.read_index (omega (arith, v.slots, e)) in
    let next : Queue = record q { stored = q.stored - 1; read_index = q.howmany } in
    let gone = get_elem?-eq-none q.elements q.howmany (omega (arith, v.slots)) in
    (x, next, at, ground (arith, at, v.small, v.fits), omega arith, ground (arith, gone))
