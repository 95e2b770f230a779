-- ===== src/Base/Results.antt =====
-- Statements about what a call returns, if it returns.
use mathlib.Core.Path.{◌≡◌, subst}
use mathlib.Core.Option.{Option, none, some}
use anti_dos.Base.Tests.{◌>>=◌}

-- If the call returns, its result has the property.
abbrev pub Whenever {ℓ κ} : {A : Type ℓ} → (A → Type κ) → Option A → Type κ
Whenever P none = Unit
Whenever P (some a) = P a

pub Whenever-some {ℓ κ} :
    {A : Type ℓ} (P : A → Type κ) (o : Option A) (a : A) → o ≡ some a → Whenever P o → P a
Whenever-some P none a e h = cc
Whenever-some P (some b) a e h = subst P (cc) h

pub Whenever-tt {ℓ} : {A : Type ℓ} (o : Option A) → Whenever (λ (_ : A). Unit {0}) o
Whenever-tt none = tt
Whenever-tt (some a) = tt

-- A property of each step of a chain.
pub Whenever->>= {ℓ κ μ ν} :
    {A : Type ℓ} {B : Type κ} (P : A → Type μ) (Q : B → Type ν) (o : Option A) (f : A → Option B)
    → Whenever P o
    → ((a : A) → P a → Whenever Q (f a))
    → Whenever Q (o >>= f)
Whenever->>= P Q none f h k = tt
Whenever->>= P Q (some a) f h k = k a h
