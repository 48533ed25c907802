-- ===== src/Base/Results.antt =====
-- What holds of the result of a computation that may fail, by the steps of the computation.
use mathlib.Core.Path.{◌≡◌, refl, subst}
use mathlib.Core.Bool.{Bool, true, false}
use mathlib.Core.Option.{Option, none, some}
use native.Mathlib.Omega.{arith}
use ecp_c.Base.Tests.{◌>>=◌, if◌then◌else◌, some_inj}

-- `P` holds of the result, if there is one.
pub record Ensures {ℓ} {A : Type ℓ} (o : Option A) (P : A → Type 0) : Type ℓ where
  pub holds : (a : A) → o ≡ some a → P a

pub Ensures-none {ℓ} : {A : Type ℓ} {P : A → Type 0} → Ensures {A = A} none P
Ensures-none = record { holds = λ a e. absurd (ground arith) }

pub Ensures-some {ℓ} : {A : Type ℓ} {P : A → Type 0} {a : A} → P a → Ensures (some a) P
Ensures-some {P = P} h = record { holds = λ b e. subst P (some_inj e) h }

pub Ensures-bind {ℓ κ} :
    {A : Type ℓ} {B : Type κ} {f : A → Option B} {P : A → Type 0} {Q : B → Type 0} (o : Option A)
    → Ensures o P
    → ((a : A) → o ≡ some a → P a → Ensures (f a) Q)
    → Ensures (o >>= f) Q
Ensures-bind none h k = Ensures-none
Ensures-bind (some a) h k = k a refl (h.holds a refl)

pub Ensures-lookup {ℓ κ} :
    {A : Type ℓ} {B : Type κ} {f : A → Option B} {Q : B → Type 0} (o : Option A)
    → ((a : A) → o ≡ some a → Ensures (f a) Q)
    → Ensures (o >>= f) Q
Ensures-lookup none k = Ensures-none
Ensures-lookup (some a) k = k a refl

pub Ensures-if {ℓ} :
    {A : Type ℓ} {x y : Option A} {Q : A → Type 0} (c : Bool)
    → Ensures x Q
    → Ensures y Q
    → Ensures (if c then x else y) Q
Ensures-if true h k = h
Ensures-if false h k = k

pub Ensures-mono {ℓ} :
    {A : Type ℓ} {P Q : A → Type 0} {o : Option A}
    → ((a : A) → P a → Q a)
    → Ensures o P
    → Ensures o Q
Ensures-mono k h = record { holds = λ a e. k a (h.holds a e) }

-- A test, with its outcome on each side.
pub Ensures-test {ℓ} :
    {A : Type ℓ} {x y : Option A} {Q : A → Type 0} (c : Bool)
    → (c ≡ true → Ensures x Q)
    → (c ≡ false → Ensures y Q)
    → Ensures (if c then x else y) Q
Ensures-test true h k = h refl
Ensures-test false h k = k refl
