-- ===== src/Prelude/Tests.antt =====
-- Boolean tests on numbers, and case splits that keep their equation.
use Prim.Native.Nat.{ℕ, compare, Ordering}
use mathlib.Core.Path.{◌≡◌, refl}
use mathlib.Core.Logic.{◌⊎◌, inl, inr}
use mathlib.Core.Bool.{Bool, true, false}
use mathlib.Core.Option.{Option, none, some}

abbrev pub ltb : ℕ → ℕ → Bool
ltb a b = elim (compare a b) [ Ordering.lt ↦ true | _ ↦ false ]

abbrev pub leb : ℕ → ℕ → Bool
leb a b = elim (compare a b) [ Ordering.gt ↦ false | _ ↦ true ]

infix 50 ◌==◌
abbrev pub ◌==◌ : ℕ → ℕ → Bool
a == b = elim (compare a b) [ Ordering.eq ↦ true | _ ↦ false ]

infix 1 if◌then◌else◌
abbrev pub if◌then◌else◌ {ℓ} : {A : Type ℓ} → Bool → A → A → A
if true then x else y = x
if false then x else y = y

-- A decision as a Boolean.
abbrev pub holds {ℓ} : {P : Type ℓ} → Dec P → Bool
holds (yes h) = true
holds (no h) = false

pub Bool-cases : (b : Bool) → (b ≡ true) ⊎ (b ≡ false)
Bool-cases true = inl refl
Bool-cases false = inr refl

pub Option-cases {ℓ} : {A : Type ℓ} (o : Option A) → (o ≡ none) ⊎ ((a : A) × (o ≡ some a))
Option-cases none = inl refl
Option-cases (some a) = inr (a, refl)

-- A decided equation, and the Boolean that the program branches on.
pub eq_of_holds {ℓ} : {A : Type ℓ} {x y : A} (d : Dec (x ≡ y)) → holds d ≡ true → x ≡ y
eq_of_holds (yes h) e = h
eq_of_holds (no h) e = cc

pub holds_of_eq {ℓ} : {A : Type ℓ} {x y : A} (d : Dec (x ≡ y)) → x ≡ y → holds d ≡ true
holds_of_eq (yes h) e = refl
holds_of_eq (no h) e = absurd (h e)

pub holds_of_ne {ℓ} : {A : Type ℓ} {x y : A} (d : Dec (x ≡ y)) → ¬ (x ≡ y) → holds d ≡ false
holds_of_ne (yes h) e = absurd (e h)
holds_of_ne (no h) e = refl
