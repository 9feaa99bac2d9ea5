-- ===== src/Base/Tests.antt =====
-- Boolean tests, the conditional, and an equality test for each kind of key.
use Prim.Native.Nat.{ℕ, compare, Ordering}
use Prim.Native.String.{String}
use mathlib.Core.Path.{◌≡◌, refl, ap}
use mathlib.Core.Logic.{◌↔◌, ◌⊎◌, inl, inr}
use mathlib.Core.Bool.{Bool, true, false}
use mathlib.Core.Option.{Option, none, some}
use native.Mathlib.Omega.{arith}
use text.Mathlib.Text.{◌==◌ as str_eq}
use text.Mathlib.TextEquality.{eq_iff}

abbrev pub ltb : ℕ → ℕ → Bool
ltb a b = elim (compare a b) [ Ordering.lt ↦ true | _ ↦ false ]

abbrev pub leb : ℕ → ℕ → Bool
leb a b = elim (compare a b) [ Ordering.gt ↦ false | _ ↦ true ]

abbrev pub nat_beq : ℕ → ℕ → Bool
nat_beq a b = elim (compare a b) [ Ordering.eq ↦ true | _ ↦ false ]

infix 1 if◌then◌else◌
abbrev pub if◌then◌else◌ {ℓ} : {A : Type ℓ} → Bool → A → A → A
if true then x else y = x
if false then x else y = y

-- A type whose values `===` compares.
pub record Equality {ℓ} (A : Type ℓ) : Type ℓ where
  pub equals : A → A → Bool
  pub equals_iff : (a b : A) → (equals a b ≡ true) ↔ (a ≡ b)

infix 50 ◌==◌
abbrev pub ◌==◌ {ℓ} : {A : Type ℓ} ⦃same : Equality A⦄ → A → A → Bool
◌==◌ ⦃same⦄ = same.equals

pub nat_equals_iff : (a b : ℕ) → (nat_beq a b ≡ true) ↔ (a ≡ b)
nat_equals_iff a b = ground arith

instance abbrev pub nat_eq : Equality ℕ
nat_eq = record { equals = nat_beq; equals_iff = nat_equals_iff }

instance abbrev pub string_eq : Equality String
string_eq = record { equals = str_eq; equals_iff = eq_iff }

-- A comparison with `undefined` among the values.
abbrev pub option_beq {ℓ} : {A : Type ℓ} ⦃e : Equality A⦄ → Option A → Option A → Bool
option_beq none none = true
option_beq none (some b) = false
option_beq (some a) none = false
option_beq ⦃e⦄ (some a) (some b) = e.equals a b

pub option_beq_iff {ℓ} :
    {A : Type ℓ} ⦃e : Equality A⦄ (a b : Option A) → (option_beq a b ≡ true) ↔ (a ≡ b)
option_beq_iff none none = ((λ _. refl), (λ _. refl))
option_beq_iff none (some b) = ((λ h. cc), (λ h. cc))
option_beq_iff (some a) none = ((λ h. cc), (λ h. cc))
option_beq_iff ⦃e⦄ (some a) (some b) =
    ((λ h. ap some ((e.equals_iff a b).0 h)), (λ h. (e.equals_iff a b).1 (cc h)))

-- To split on a computed value and keep the equation.
pub Bool-cases : (b : Bool) → (b ≡ true) ⊎ (b ≡ false)
Bool-cases true = inl refl
Bool-cases false = inr refl

pub Option-cases {ℓ} : {A : Type ℓ} (o : Option A) → (o ≡ none) ⊎ ((a : A) × (o ≡ some a))
Option-cases none = inl refl
Option-cases (some a) = inr (a, refl)

abbrev pub is_some {ℓ} : {A : Type ℓ} → Option A → Bool
is_some none = false
is_some (some a) = true

-- `a ?? b`
abbrev pub get_or {ℓ} : {A : Type ℓ} → Option A → A → A
get_or none d = d
get_or (some a) d = a
