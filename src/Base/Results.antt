-- ===== src/Base/Results.antt =====
-- `Result<A, E>` with the error type first, and the chain that the `?` operator makes.
use mathlib.Core.Option.{Option, none, some}
use mathlib.Core.Path.{◌≡◌, refl}

pub data Result {ℓ} (E A : Type ℓ) : Type ℓ where
  ok : A → Result E A
  err : E → Result E A

infixl 5 ◌>>=◌
abbrev pub ◌>>=◌ {ℓ} : {E A B : Type ℓ} (result : Result E A) → (A → Result E B) → Result E B
err e >>= next = err e
ok a >>= next = next a

-- `ok_or_else`.
abbrev pub ok_or {ℓ} : {E A : Type ℓ} → Option A → E → Result E A
ok_or none e = err e
ok_or (some a) e = ok a

-- The value that a chain passes on, from a chain that succeeds.
pub >>=-eq-ok {ℓ} :
    {E A B : Type ℓ} (result : Result E A) (next : A → Result E B) {out : B}
    → (result >>= next) ≡ ok out
    → (value : A) × (result ≡ ok value) × (next value ≡ ok out)
>>=-eq-ok (err e) next chain = cc
>>=-eq-ok (ok value) next chain = (value, refl, chain)
