-- ===== src/Prelude/Errors.antt =====
-- Exceptions as values: a call that may throw returns `ok` with its value or `err` with the error.
use mathlib.Core.Path.{◌≡◌, refl}
use mathlib.Core.Bool.{Bool, true, false}
use mathlib.Core.Logic.{◌⊎◌, inl, inr}
use mathlib.Core.Option.{Option, none, some}

pub data Result (E A : Type 0) : Type 0 where
  err : E → Result E A
  ok : A → Result E A

module _ {E A : Type 0} where
  -- Whatever is missing is an error.
  abbrev pub from_option : Option A → E → Result E A
  from_option (some a) e = ok a
  from_option none e = err e

  pub Result-cases : (r : Result E A) → ((a : A) × (r ≡ ok a)) ⊎ ((e : E) × (r ≡ err e))
  Result-cases (err e) = inr (e, refl)
  Result-cases (ok a) = inl (a, refl)

  pub from_option-eq-ok : (o : Option A) (e : E) {a : A} → from_option o e ≡ ok a → o ≡ some a
  from_option-eq-ok (some a) e h = cc
  from_option-eq-ok none e h = cc

module _ {E A B : Type 0} where
  infixl 5 ◌>>=◌
  -- The first throw ends the block.
  abbrev pub ◌>>=◌ : Result E A → (A → Result E B) → Result E B
  err thrown >>= next = err thrown
  ok value >>= next = next value

  pub >>=-eq-ok :
      (r : Result E A) (next : A → Result E B) {b : B}
      → (r >>= next) ≡ ok b
      → (a : A) × (r ≡ ok a) × (next a ≡ ok b)
  >>=-eq-ok (err thrown) next h = cc
  >>=-eq-ok (ok value) next h = (value, refl, h)

infixl 5 ◌>>◌
abbrev pub ◌>>◌ : {E B : Type 0} → Result E (Unit {0}) → Result E B → Result E B
first >> rest = first >>= λ done. rest

-- `if (!test) throw e`
abbrev pub require : {E : Type 0} → Bool → E → Result E (Unit {0})
require false thrown = err thrown
require true thrown = ok tt

-- What holds of a value that is returned.
abbrev pub Ensures : {E A : Type 0} → (A → Type 0) → Result E A → Type 0
Ensures {E} {A} P r = (a : A) → r ≡ ok a → P a

module _ {E A B : Type 0} {P : B → Type 0} where
  pub >>=-Ensures :
      (r : Result E A) (next : A → Result E B)
      → ((a : A) → r ≡ ok a → Ensures P (next a))
      → Ensures P (r >>= next)
  >>=-Ensures (err thrown) next k b h = cc
  >>=-Ensures (ok a) next k b h = k a refl b h

pub require-Ensures :
    {E B : Type 0} {P : B → Type 0} (b : Bool) (e : E) (rest : Result E B)
    → (b ≡ true → Ensures P rest)
    → Ensures P (require b e >> rest)
require-Ensures true e rest k a h = k refl a h
require-Ensures false e rest k a h = cc

pub require-eq-ok :
    {E : Type 0} (b : Bool) (e : E) (done : Unit {0}) → require b e ≡ ok done → b ≡ true
require-eq-ok true e done h = refl
require-eq-ok false e done h = cc

pub ok-eq : {E A : Type 0} {a b : A} → ◌≡◌ {A = Result E A} (ok a) (ok b) → b ≡ a
ok-eq h = cc
