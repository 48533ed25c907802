-- ===== src/Queue/Fifo.antt =====
-- What a client expects of the non-blocking queue: a bounded FIFO of pointers, oldest first, which
-- refuses an element with -1 when it is full and reads NULL when it is empty.
use ecp_c.Base.{
  ℕ, ◌+◌, List, [], ◌∷◌, ◌++◌, ◌==◌, if◌then◌else◌, length, minus_one32, Option, some, ◌>>=◌,
}
use ecp_c.Queue.{Queue, thread_queue_nb_get_element, thread_queue_nb_set_element}

unfoldable pub get : List ℕ → ℕ × List ℕ
get [] = (0, [])
get (x ∷ xs) = (x, xs)

unfoldable pub set : ℕ → List ℕ → ℕ → ℕ × List ℕ
set cap xs x = if length xs == cap then (minus_one32, xs) else (0, xs ++ x ∷ [])

-- A client's calls; each answers with what the call returns.
pub data Op : Type 0 where
  get_op : Op
  set_op : ℕ → Op

abbrev pub reads : List Op → ℕ
reads [] = 0
reads (get_op ∷ ops) = reads ops + 1
reads (set_op _ ∷ ops) = reads ops

unfoldable pub run : ℕ → List ℕ → List Op → List ℕ
run cap xs [] = []
run cap xs (get_op ∷ ops) = let (r, xs') = get xs in r ∷ run cap xs' ops
run cap xs (set_op x ∷ ops) = let (r, xs') = set cap xs x in r ∷ run cap xs' ops

-- The same calls on the queue of the source.
unfoldable pub run_queue : Queue → List Op → Option (List ℕ)
run_queue q [] = some []
run_queue q (get_op ∷ ops) = do
  (r, q') ← thread_queue_nb_get_element q
  rs ← run_queue q' ops
  some (r ∷ rs)
run_queue q (set_op x ∷ ops) = do
  (r, q') ← thread_queue_nb_set_element q x
  rs ← run_queue q' ops
  some (r ∷ rs)
