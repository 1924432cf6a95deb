-- ===== src/Common/Monad.antt =====
-- Steps that may fail, one after another, for `do` blocks.
use mathlib.Core.Option.{Option, none, some}
use mathlib.Core.Path.{◌≡◌, subst}

infixl 5 ◌>>=◌
abbrev pub ◌>>=◌ {ℓ κ} : {A : Type ℓ} {B : Type κ} → Option A → (A → Option B) → Option B
none >>= f = none
some a >>= f = f a

-- The result, if there is one, is in `Q`.
abbrev pub Holds {ℓ κ} : {A : Type ℓ} → (A → Type κ) → Option A → Type κ
Holds Q none = Unit {κ}
Holds Q (some a) = Q a

pub Holds-bind {ℓ κ λ1 λ2} :
    {A : Type ℓ} {B : Type κ} (Q : A → Type λ1) (R : B → Type λ2) (x : Option A) (f : A → Option B)
    → Holds Q x
    → ((a : A) → Q a → Holds R (f a))
    → Holds R (x >>= f)
Holds-bind Q R none f h k = tt
Holds-bind Q R (some a) f h k = k a h

pub Holds-some {ℓ κ} :
    {A : Type ℓ} (Q : A → Type κ) (x : Option A) (a : A) → x ≡ some a → Holds Q x → Q a
Holds-some Q x a e h = subst (Holds Q) e h

pub Holds-any {ℓ} : {A : Type ℓ} (x : Option A) → Holds (λ a. Unit {0}) x
Holds-any none = tt
Holds-any (some a) = tt
