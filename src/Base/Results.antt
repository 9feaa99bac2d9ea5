-- ===== src/Base/Results.antt =====
-- A value, or the exception that the code throws.
use mathlib.Core.Path.{◌≡◌, refl, subst}
use mathlib.Core.Logic.{◌⊎◌, inl, inr}
use mathlib.Core.Bool.{Bool, true, false}
use mathlib.Core.Option.{Option, none, some}
use native.Mathlib.Omega.{arith}

pub data Result {ℓ} (E : Type 0) (A : Type ℓ) : Type ℓ where
  ok : A → Result E A
  fail : E → Result E A

infixl 5 ◌>>=◌
unfoldable pub ◌>>=◌ {ℓ κ} :
    {E : Type 0} {A : Type ℓ} {B : Type κ} → Result E A → (A → Result E B) → Result E B
ok a >>= f = f a
fail e >>= f = fail e

-- `if (!test) throw error`
unfoldable pub require : {E : Type 0} → Bool → E → Result E (Unit {0})
require true error = ok tt
require false error = fail error

-- `if (!value) throw error`
unfoldable pub or_fail {ℓ} : {E : Type 0} {A : Type ℓ} → Option A → E → Result E A
or_fail none error = fail error
or_fail (some a) error = ok a

-- Where there is a value, it has `P`.
pub data Post {ℓ κ} {E : Type 0} {A : Type ℓ} (P : A → Type κ) : Result E A → Type (ℓ ⊔ κ) where
  fails : {e : E} → Post P (fail e)
  gives : {a : A} → P a → Post P (ok a)

pub Result-cases {ℓ} :
    {E : Type 0} {A : Type ℓ} (r : Result E A) → ((e : E) × (r ≡ fail e)) ⊎ ((a : A) × (r ≡ ok a))
Result-cases (fail e) = inl (e, refl)
Result-cases (ok a) = inr (a, refl)

pub Post-ok {ℓ κ} :
    {E : Type 0} {A : Type ℓ} {P : A → Type κ} (r : Result E A) (a : A) → Post P r → r ≡ ok a → P a
Post-ok (fail e) a p same = cc
Post-ok {P} (ok b) a (gives v) same = let e : b ≡ a = ground arith in subst P e v

pub bind-Post {ℓ κ μ} :
    {E : Type 0} {A : Type ℓ} {B : Type κ} {P : B → Type μ} (r : Result E A) (k : A → Result E B)
    → ((a : A) → r ≡ ok a → Post P (k a))
    → Post P (r >>= k)
unfolding ◌>>=◌
bind-Post (fail e) k after = fails
bind-Post (ok a) k after = after a refl

pub bind_known {ℓ κ μ ν} :
    {E : Type 0} {A : Type ℓ} {B : Type κ} {Q : A → Type ν} {P : B → Type μ} (r : Result E A)
    (k : A → Result E B)
    → Post Q r
    → ((a : A) → Q a → Post P (k a))
    → Post P (r >>= k)
unfolding ◌>>=◌
bind_known (fail e) k known after = fails
bind_known (ok a) k (gives known) after = after a known

pub require-Post {κ μ} :
    {E : Type 0} {B : Type κ} {P : B → Type μ} (b : Bool) (error : E) (k : Unit {0} → Result E B)
    → (b ≡ true → Post P (k tt))
    → Post P (require b error >>= k)
unfolding ◌>>=◌ require
require-Post true error k after = after refl
require-Post false error k after = fails

pub or_fail-Post {ℓ κ μ} :
    {E : Type 0} {A : Type ℓ} {B : Type κ} {P : B → Type μ} (o : Option A) (error : E)
    (k : A → Result E B)
    → ((a : A) → o ≡ some a → Post P (k a))
    → Post P (or_fail o error >>= k)
unfolding ◌>>=◌ or_fail
or_fail-Post none error k after = fails
or_fail-Post (some a) error k after = after a refl
