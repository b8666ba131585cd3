-- ===== src/Prelude/Tests.antt =====
-- Boolean tests on the native numbers, the conditional, and case splits that keep an equation.
use Prim.Native.Nat.{ℕ, zero, suc, ◌≤◌, ◌<◌, compare, Ordering}
use mathlib.Core.Path.{◌≡◌, refl}
use mathlib.Core.Logic.{◌⊎◌, inl, inr}
use mathlib.Core.Bool.{Bool, true, false}
use mathlib.Core.Option.{Option, none, some}
use native.Mathlib.Omega.{arith}
use native.Mathlib.Decide.{dec_lt}

abbrev pub ltb : ℕ → ℕ → Bool
ltb a b = elim (compare a b) [ Ordering.lt ↦ true | _ ↦ false ]

abbrev pub leb : ℕ → ℕ → Bool
leb a b = elim (compare a b) [ Ordering.gt ↦ false | _ ↦ true ]

infix 50 ◌==◌
abbrev pub ◌==◌ : ℕ → ℕ → Bool
a == b = elim (compare a b) [ Ordering.eq ↦ true | _ ↦ false ]

infix 1 if◌then◌else◌
abbrev pub if◌then◌else◌ {ℓ} : {A : Type ℓ} → Bool → A → A → A
if true then x else y = x
if false then x else y = y

pub ltb→lt : (a b : ℕ) → ltb a b ≡ true → a < b
ltb→lt a b h = ground arith

pub lt→ltb : (a b : ℕ) → a < b → ltb a b ≡ true
lt→ltb a b h = ground arith

pub leb→le : (a b : ℕ) → leb a b ≡ true → a ≤ b
leb→le a b h = ground arith

pub le→leb : (a b : ℕ) → a ≤ b → leb a b ≡ true
le→leb a b h = ground arith

pub leb-false : (a b : ℕ) → leb a b ≡ false → b < a
leb-false a b h = ground arith

pub lt→leb-false : (a b : ℕ) → b < a → leb a b ≡ false
lt→leb-false a b h = ground arith

pub ltb-false : (a b : ℕ) → ltb a b ≡ false → b ≤ a
ltb-false a b h = ground arith

pub le→ltb-false : (a b : ℕ) → b ≤ a → ltb a b ≡ false
le→ltb-false a b h = ground arith

pub ==→eq : (a b : ℕ) → (a == b) ≡ true → a ≡ b
==→eq a b h = ground arith

pub eq→== : (a b : ℕ) → a ≡ b → (a == b) ≡ true
eq→== a b h = ground arith

pub ==-false : (a b : ℕ) → (a == b) ≡ false → (a ≡ b → ⊥)
==-false a b h = λ e. ground arith

pub ne→==-false : (a b : ℕ) → (a ≡ b → ⊥) → (a == b) ≡ false
ne→==-false a b h = ground arith

pub Bool-cases : (b : Bool) → (b ≡ true) ⊎ (b ≡ false)
Bool-cases true = inl refl
Bool-cases false = inr refl

pub Option-cases {ℓ} : {A : Type ℓ} (o : Option A) → (o ≡ none) ⊎ ((a : A) × (o ≡ some a))
Option-cases none = inl refl
Option-cases (some a) = inr (a, refl)

-- A test passes at every number under a bound.
unfoldable pub passes : (ℕ → Bool) → ℕ → Bool
passes test zero = true
passes test (suc top) = if test top then passes test top else false

pub passes-at :
    (test : ℕ → Bool) (bound : ℕ) → passes test bound ≡ true → (k : ℕ) → k < bound → test k ≡ true
unfolding passes
passes-at test zero all k under = absurd (omega arith)
passes-at test (suc top) all k under = elim (Bool-cases (test top)) [
  | inr fails ↦ cc
  | inl good ↦ elim (dec_lt k top) [
    | yes inside ↦ passes-at test top (rw good at all) k inside
    | no last ↦ let at_top : k ≡ top = omega arith in rw at_top good
  ]
]
