-- ===== src/Prelude/Result.antt =====
-- Python's exceptions as values: a call returns or raises.

use mathlib.Core.Path.{◌≡◌, refl}

-- The exceptions that the modelled code raises, or that the calls it makes may raise.
pub data Exception : Type 0 where
  value_error key_error os_error unicode_decode_error write_lock_timeout : Exception

pub data Result {ℓ} (A : Type ℓ) : Type ℓ where
  ok : A → Result A
  raise : Exception → Result A

infixl 5 ◌>>=◌
abbrev pub ◌>>=◌ {ℓ κ} : {A : Type ℓ} {B : Type κ} → Result A → (A → Result B) → Result B
ok a >>= f = f a
raise e >>= f = raise e

-- A returned value with a property.
abbrev pub Returns {ℓ} : {A : Type ℓ} → (A → Type 0) → Result A → Type 0
Returns P (ok a) = P a
Returns P (raise e) = ⊥

pub Returns-bind {ℓ κ} :
    {A : Type ℓ} {B : Type κ} (P : A → Type 0) (Q : B → Type 0) (m : Result A) (f : A → Result B)
    → Returns P m
    → ((a : A) → P a → Returns Q (f a))
    → Returns Q (m >>= f)
Returns-bind P Q (ok a) f h k = k a h
Returns-bind P Q (raise e) f h k = absurd h

pub Returns-ok {ℓ} :
    {A : Type ℓ} (P : A → Type 0) (m : Result A) → Returns P m → (a : A) × (m ≡ ok a) × P a
Returns-ok P (ok a) h = (a, refl, h)
Returns-ok P (raise e) h = absurd h

pub Returns-map {ℓ} :
    {A : Type ℓ} (P Q : A → Type 0) (m : Result A)
    → Returns P m
    → ((a : A) → P a → Q a)
    → Returns Q m
Returns-map P Q (ok a) h f = f a h
Returns-map P Q (raise e) h f = h
