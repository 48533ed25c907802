-- ===== src/Context/Frames.antt =====
-- Bytes on a descending stack: what a run of pushes stores, and what a run of pops reads.
use ecp_c.Base.{
  ℕ, zero, suc, ◌+◌, ◌-◌, ◌≤◌, ◌<◌, ◌≡◌, refl, ap, ◌∙◌, List, [], ◌∷◌, Bool, false, ◌||◌, ◌==◌,
  if◌then◌else◌, arith, length,
}
use mathlib.Core.List.{map}
use ecp_c.System.{update, update_self, update_ne}

-- The `n` bytes above address `a`, upwards.
unfoldable pub peek : (ℕ → ℕ) → ℕ → ℕ → List ℕ
peek ram a zero = []
peek ram a (suc n) = ram (a + 1) ∷ peek ram (a + 1) n

-- The bytes `vs` stored from `a` downwards.
unfoldable pub store_down : (ℕ → ℕ) → ℕ → List ℕ → ℕ → ℕ
store_down ram a [] = ram
store_down ram a (v ∷ vs) = store_down (update ram a v) (a - 1) vs

-- The registers `rs` loaded in turn with `vs`.
unfoldable pub assign : List ℕ → List ℕ → (ℕ → ℕ) → ℕ → ℕ
assign [] vs g = g
assign (r ∷ rs) [] g = g
assign (r ∷ rs) (v ∷ vs) g = assign rs vs (update g r v)

unfoldable pub has : ℕ → List ℕ → Bool
has i [] = false
has i (r ∷ rs) = r == i || has i rs

-- Last in, first out.
unfoldable pub reversed : List ℕ → List ℕ → List ℕ
reversed [] acc = acc
reversed (v ∷ vs) acc = reversed vs (v ∷ acc)

pub store_down_above :
    (ram : ℕ → ℕ) (a : ℕ) (vs : List ℕ) (q : ℕ) → a < q → store_down ram a vs q ≡ ram q
unfolding store_down
store_down_above ram a [] q h = refl
store_down_above ram a (v ∷ vs) q h =
    store_down_above (update ram a v) (a - 1) vs q (omega arith) ∙ ground arith

pub store_down_below :
    (ram : ℕ → ℕ) (a : ℕ) (vs : List ℕ) (q : ℕ) → q + length vs ≤ a → store_down ram a vs q ≡ ram q
unfolding store_down
store_down_below ram a [] q h = refl
store_down_below ram a (v ∷ vs) q h =
    store_down_below (update ram a v) (a - 1) vs q (omega arith) ∙ ground arith

pub peek-eq :
    (f g : ℕ → ℕ) (a n : ℕ) → ((q : ℕ) → a < q → q ≤ a + n → f q ≡ g q) → peek f a n ≡ peek g a n
unfolding peek
peek-eq f g a zero h = refl
peek-eq f g a (suc n) h = ground (
  arith,
  h (a + 1) (omega arith) (omega arith),
  peek-eq f g (a + 1) n (λ q p r. h q (omega arith) (omega arith)),
)

peek-store_down_onto :
    (ram : ℕ → ℕ) (a : ℕ) (vs : List ℕ) (n p k : ℕ)
    → p + length vs ≡ a
    → k ≡ length vs + n
    → peek (store_down ram a vs) p k ≡ reversed vs (peek ram a n)
unfolding peek store_down reversed
peek-store_down_onto ram a [] n p k h e = rw (the_end, the_rest)
  where
    the_end : p ≡ a
    the_end = omega arith

    the_rest : k ≡ n
    the_rest = omega arith
peek-store_down_onto ram a (v ∷ vs) n p k h e =
    peek-store_down_onto (update ram a v) (a - 1) vs (suc n) p k (omega arith) (omega arith)
    ∙ ap (reversed vs) top
  where
    back : a - 1 + 1 ≡ a
    back = omega arith

    top : peek (update ram a v) (a - 1) (suc n) ≡ v ∷ peek ram a n
    top = rw back (
        ground (
          arith,
          update_self ram a v,
          peek-eq (update ram a v) ram a n (λ q below up. update_ne ram a q v (omega arith)),
        ))

-- What was stored downwards is read upwards in the opposite order.
pub peek-store_down :
    (ram : ℕ → ℕ) (a : ℕ) (vs : List ℕ)
    → length vs ≤ a
    → peek (store_down ram a vs) (a - length vs) (length vs) ≡ reversed vs []
unfolding peek
peek-store_down ram a vs h =
    peek-store_down_onto ram a vs 0 (a - length vs) (length vs) (omega arith) (omega arith)

pub assign-map :
    (rs : List ℕ) (g h : ℕ → ℕ) (i : ℕ) → assign rs (map g rs) h i ≡ (if has i rs then g i else h i)
unfolding assign has
assign-map [] g h i = refl
assign-map (r ∷ rs) g h i = ground (arith, assign-map rs g (update h r (g r)) i)
