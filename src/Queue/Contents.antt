-- ===== src/Queue/Contents.antt =====
-- The representation invariant of the queue, and the elements that it holds in order.
use ecp_c.Base.{
  ℕ, zero, suc, ◌+◌, ◌-◌, ◌^◌, ◌≤◌, ◌<◌, ◌≡◌, ◌≢◌, refl, ap, List, [], ◌∷◌, ◌++◌, ◌==◌, leb, Option,
  none, some, if◌then◌else◌, arith, length, get_elem?, set, get_elem?-set_self, get_elem?-set_ne,
}
use ecp_c.Queue.{Queue}

abbrev pub element : Option ℕ → ℕ
element none = 0
element (some a) = a

abbrev pub next_index : ℕ → ℕ → ℕ
next_index cap i = if i + 1 == cap then 0 else i + 1

-- `i`, at most once round an array of `cap` slots.
abbrev pub wrap_index : ℕ → ℕ → ℕ
wrap_index cap i = if leb cap i then i - cap else i

-- The `n` elements from index `i` on, going round at `cap`.
abbrev pub slice : List ℕ → ℕ → ℕ → ℕ → List ℕ
slice xs cap i zero = []
slice xs cap i (suc n) = element (get_elem? xs i) ∷ slice xs cap (next_index cap i) n

-- The slot of the oldest element: a read index that stands at the end means slot 0.
abbrev pub oldest : Queue → ℕ
oldest q = if q.read_index == q.howmany then 0 else q.read_index

abbrev pub contents : Queue → List ℕ
contents q = slice q.elements q.howmany (oldest q) q.stored

-- The array has `howmany` slots, fewer than 2 ^ 15, and the write index is `stored` slots on from
-- the oldest element.
pub record IsValid (q : Queue) : Type 0 where
  pub slots : length q.elements ≡ q.howmany
  pub small : q.howmany < 2 ^ 15
  pub fits : q.stored ≤ q.howmany
  pub reading : q.read_index ≤ q.howmany
  pub writing : q.write_index ≡ wrap_index q.howmany (oldest q + q.stored)

pub length-slice : (xs : List ℕ) (cap i n : ℕ) → length (slice xs cap i n) ≡ n
length-slice xs cap i zero = refl
length-slice xs cap i (suc n) = ap suc (length-slice xs cap (next_index cap i) n)

pub slice_of_ne_zero :
    (xs : List ℕ) (cap i n : ℕ)
    → n ≢ 0
    → slice xs cap i n ≡ element (get_elem? xs i) ∷ slice xs cap (next_index cap i) (n - 1)
slice_of_ne_zero xs cap i zero h = absurd (h refl)
slice_of_ne_zero xs cap i (suc n) h = ap (λ k. slice xs cap i (suc k)) (omega arith)

-- A write just past a slice extends it by that element.
pub slice-set :
    (xs : List ℕ) (cap x n i w : ℕ)
    → length xs ≡ cap
    → i < cap
    → n < cap
    → w ≡ wrap_index cap (i + n)
    → slice (set xs w x) cap i (suc n) ≡ slice xs cap i n ++ x ∷ []
slice-set xs cap x zero i w hl hi hn e = ground (arith, get_elem?-set_self xs w x)
slice-set xs cap x (suc n) i w hl hi hn e =
    ground (arith, get_elem?-set_ne xs w i x, slice-set xs cap x n (next_index cap i) w hl)
