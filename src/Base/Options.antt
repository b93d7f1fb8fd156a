-- ===== src/Base/Options.antt =====
-- What holds of the value of an `Option`, and the chain that the `?` operator makes of `Option`s.
use mathlib.Core.Option
use mathlib.Core.Option.{Option, none, some}

infixl 5 ◌>>=◌
abbrev pub ◌>>=◌ {ℓ} : {A B : Type ℓ} → Option A → (A → Option B) → Option B
none >>= f = none
some a >>= f = f a

-- There is a value, and it has the property.
abbrev pub Has {ℓ} : {A : Type ℓ} → (A → Type 0) → Option A → Type 0
Has P none = ⊥
Has P (some a) = P a

-- The value has the property, if there is one.
abbrev pub Each {ℓ} : {A : Type ℓ} → (A → Type 0) → Option A → Type 0
Each P none = Unit
Each P (some a) = P a

pub Has-map {ℓ} :
    {A : Type ℓ} (P Q : A → Type 0) (o : Option A) → ((a : A) → P a → Q a) → Has P o → Has Q o
Has-map P Q none f h = h
Has-map P Q (some a) f h = f a h

pub Has-Option_map {ℓ κ} :
    {A : Type ℓ} {B : Type κ} (Q : B → Type 0) (g : A → B) (o : Option A)
    → Has (λ a. Q (g a)) o
    → Has Q (Option.map g o)
Has-Option_map Q g none h = h
Has-Option_map Q g (some a) h = h
