-- ===== src/Lifecycle/Circle.antt =====
-- Lists of addresses as circles: where a walk ends, and the circle from another place on.
use ecp_c.Base.{ℕ, ◌≡◌, ◌≢◌, ◌⊎◌, inl, inr, refl, sym, ap, List, [], ◌∷◌, ◌++◌}
use mathlib.Core.Path.{subst}
use ecp_c.System.{System}
use ecp_c.Scheduler.Elect.{In, Distinct, AllLive, IsLive}
use ecp_c.Scheduler.Ring.{Walk, Without}

abbrev pub last : ℕ → List ℕ → ℕ
last p [] = p
last p (x ∷ xs) = last x xs

pub last-append : (p : ℕ) (xs ys : List ℕ) → last p (xs ++ ys) ≡ last (last p xs) ys
last-append p [] ys = refl
last-append p (x ∷ xs) ys = last-append x xs ys

pub Walk-append :
    (s : System) (p : ℕ) (xs ys : List ℕ)
    → Walk s p xs
    → Walk s (last p xs) ys
    → Walk s p (xs ++ ys)
Walk-append s p [] ys v w = w
Walk-append s p (x ∷ xs) ys v w = (v.0, Walk-append s x xs ys v.1 w)

pub Walk-split :
    (s : System) (p : ℕ) (xs ys : List ℕ)
    → Walk s p (xs ++ ys)
    → Walk s p xs × Walk s (last p xs) ys
Walk-split s p [] ys w = (tt, w)
Walk-split s p (x ∷ xs) ys w = let (u, v) = Walk-split s x xs ys w.1 in ((w.0, u), v)

pub In-either : (a : ℕ) (xs ys : List ℕ) → In a (xs ++ ys) → In a xs ⊎ In a ys
In-either a [] ys i = inr i
In-either a (x ∷ xs) ys (inl e) = inl (inl e)
In-either a (x ∷ xs) ys (inr i) = elim (In-either a xs ys i) [ inl j ↦ inl (inr j) | inr j ↦ inr j ]

pub In-first : (a : ℕ) (xs ys : List ℕ) → In a xs → In a (xs ++ ys)
In-first a [] ys i = absurd i
In-first a (x ∷ xs) ys (inl e) = inl e
In-first a (x ∷ xs) ys (inr i) = inr (In-first a xs ys i)

pub In-second : (a : ℕ) (xs ys : List ℕ) → In a ys → In a (xs ++ ys)
In-second a [] ys i = i
In-second a (x ∷ xs) ys i = inr (In-second a xs ys i)

-- An element cuts a list in two behind it.
pub cut :
    (a : ℕ) (xs : List ℕ) → In a xs → (us : List ℕ) × (vs : List ℕ) × (xs ≡ (us ++ a ∷ []) ++ vs)
cut a [] i = absurd i
cut a (x ∷ xs) (inl e) = ([], xs, ap (λ y. y ∷ xs) (sym e))
cut a (x ∷ xs) (inr i) = let (us, vs, e) = cut a xs i in (x ∷ us, vs, ap (λ ys. x ∷ ys) e)

pub Distinct-append :
    (xs ys : List ℕ)
    → Distinct xs
    → Distinct ys
    → ((a : ℕ) → In a xs → ¬ In a ys)
    → Distinct (xs ++ ys)
Distinct-append [] ys d e apart = e
Distinct-append (x ∷ xs) ys (fresh, d) e apart = (
  (λ i. elim (In-either x xs ys i) [ inl j ↦ fresh j | inr j ↦ apart x (inl refl) j ]),
  Distinct-append xs ys d e (λ a i. apart a (inr i)),
)

Distinct-split :
    (xs ys : List ℕ)
    → Distinct (xs ++ ys)
    → Distinct xs × Distinct ys × ((a : ℕ) → In a xs → ¬ In a ys)
Distinct-split [] ys d = (tt, d, λ a i. absurd i)
Distinct-split (x ∷ xs) ys (fresh, d) =
    let (dx, dy, apart) = Distinct-split xs ys d in
    (
      ((λ i. fresh (In-first x xs ys i)), dx),
      dy,
      (λ a i j. elim i [
        | inl e ↦ fresh (In-second x xs ys (subst (λ c. In c ys) e j))
        | inr k ↦ apart a k j
      ]),
    )

pub Distinct-rotate : (xs ys : List ℕ) → Distinct (xs ++ ys) → Distinct (ys ++ xs)
Distinct-rotate xs ys d =
    let (dx, dy, apart) = Distinct-split xs ys d in
    Distinct-append ys xs dy dx (λ a i j. apart a j i)

Without-avoids : (a : ℕ) (xs : List ℕ) → ((c : ℕ) → In c xs → c ≢ a) → Without a xs
Without-avoids a [] h = tt
Without-avoids a (x ∷ xs) h = (h x (inl refl), Without-avoids a xs (λ c i. h c (inr i)))

pub Distinct-Without : (a : ℕ) (xs : List ℕ) → Distinct (xs ++ a ∷ []) → Without a xs
Distinct-Without a xs d =
    let (_, _, apart) = Distinct-split xs (a ∷ []) d in
    Without-avoids a xs (λ c i e. apart c i (inl e))

pub AllLive-In : (s : System) (xs : List ℕ) → ((q : ℕ) → In q xs → IsLive s q) → AllLive s xs
AllLive-In s [] h = tt
AllLive-In s (x ∷ xs) h = (h x (inl refl), AllLive-In s xs (λ q i. h q (inr i)))
