-- ===== src/Istio/Step.antt =====
-- A computation that gives a value, returns an error or panics.
use pluma_opeartor.Base.{◌≡◌, subst}
use pluma_opeartor.Effects.{GoError, Result, ok, err}

pub data Step {ℓ} (A : Type ℓ) : Type ℓ where
  value : A → Step A
  failure : GoError → Step A
  crash : Step A

infixl 10 ◌>>=◌
abbrev pub ◌>>=◌ {ℓ κ} : {A : Type ℓ} {B : Type κ} → Step A → (A → Step B) → Step B
value a >>= f = f a
failure e >>= f = failure e
crash >>= f = crash

-- `if err != nil { return nil, f(err) }`
abbrev pub from_result {ℓ} : {A : Type ℓ} → (GoError → GoError) → Result A → Step A
from_result f (ok a) = value a
from_result f (err e) = failure (f e)

-- If there is a value, `P` holds of it.
abbrev pub Gives {ℓ κ} : {A : Type ℓ} → (A → Type κ) → Step A → Type κ
Gives P (value a) = P a
Gives P _ = Unit

pub bind-Gives {ℓ κ} :
    {A : Type ℓ} {B : Type κ} (P : A → Type 0) (Q : B → Type 0) (m : Step A) (f : A → Step B)
    → Gives P m
    → ((a : A) → P a → Gives Q (f a))
    → Gives Q (m >>= f)
bind-Gives P Q (value a) f h k = k a h
bind-Gives P Q (failure e) f h k = tt
bind-Gives P Q crash f h k = tt

-- From an equation to the value that it shows.
pub Gives-value {ℓ κ} :
    {A : Type ℓ} (P : A → Type κ) (m : Step A) {a : A} → Gives P m → m ≡ value a → P a
Gives-value P m h e = subst (Gives P) e h

pub Gives-any {ℓ} : {A : Type ℓ} (m : Step A) → Gives (λ _. Unit {0}) m
Gives-any (value a) = tt
Gives-any (failure e) = tt
Gives-any crash = tt
