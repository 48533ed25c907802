-- ===== src/Tests/OfQueue.antt =====
-- The event queue at concrete inputs: witnesses, and the run that ends in the overrun.
use ecp_c.Base.{ℕ, ◌+◌, get_elem?, ◌≡◌, refl, List, [], ◌∷◌, some, none, arith, Returns}
use ecp_c.Queue.{Queue, thread_queue_nb_get_element, thread_queue_nb_set_element}
use ecp_c.Queue.Fifo
use ecp_c.Queue.Fifo.{Op, get_op, set_op, run_queue}
use ecp_c.Queue.Contents.{IsValid}
use ecp_c.Queue.Laws.{AgreesOnGet, AgreesOnSet, get_refines, set_refines}
use ecp_c.Queue.Runs.{run_refines, get_overruns}

abbrev zeros : ℕ → List ℕ
zeros n = 0 ∷ 0 ∷ []

abbrev fresh : Queue
fresh = record { stored = 0; howmany = 2; read_index = 0; write_index = 0; elements = zeros 2 }

-- One element was read; the third write has gone round to slot 0.
abbrev last_slot : Queue
last_slot = record {
  stored = 2;
  howmany = 2;
  read_index = 1;
  write_index = 1;
  elements = 9 ∷ 8 ∷ [];
}

abbrev script : List Op
script = set_op 7 ∷ set_op 8 ∷ set_op 9 ∷ get_op ∷ set_op 9 ∷ get_op ∷ []

fresh-IsValid : IsValid fresh
fresh-IsValid = omega arith

last_slot-IsValid : IsValid last_slot
last_slot-IsValid = omega arith

set_refines_example : Returns (thread_queue_nb_set_element fresh 7) (AgreesOnSet fresh 7)
set_refines_example = set_refines fresh 7 fresh-IsValid

get_refines_example : Returns (thread_queue_nb_get_element fresh) (AgreesOnGet fresh)
get_refines_example = get_refines fresh fresh-IsValid (omega arith)

run_refines_example : run_queue fresh script ≡ some (Fifo.run 2 [] script)
run_refines_example = run_refines script fresh fresh-IsValid (omega arith)

get_overruns_example :
    (x : ℕ) × (q' : Queue) × (get_elem? last_slot.elements last_slot.read_index ≡ some x)
    × (thread_queue_nb_get_element last_slot ≡ some (x, q'))
    × (q'.stored + 1 ≡ last_slot.stored)
    × (thread_queue_nb_get_element q' ≡ none)
get_overruns_example = get_overruns last_slot last_slot-IsValid refl (omega arith)

run_script : run_queue fresh script ≡ some (0 ∷ 0 ∷ 0xffff_ffff ∷ 7 ∷ 0 ∷ 8 ∷ [])
unfolding run_queue thread_queue_nb_set_element thread_queue_nb_get_element
run_script = refl

-- The sequence that leads to the fault.
run_too_far :
    run_queue fresh (set_op 7 ∷ set_op 8 ∷ get_op ∷ get_op ∷ set_op 9 ∷ get_op ∷ []) ≡ none
unfolding run_queue thread_queue_nb_set_element thread_queue_nb_get_element
run_too_far = refl
