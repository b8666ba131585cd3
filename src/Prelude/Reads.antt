-- ===== src/Prelude/Reads.antt =====
-- Buffers as the lists of their bytes, reads that stay inside them, and what a result has when it is there.
use Prim.Native.Nat.{ℕ, zero, suc, ◌+◌, ◌≤◌, ◌<◌}
use mathlib.Core.Path.{◌≡◌, refl, ◌∙◌}
use mathlib.Core.Bool.{Bool, true, false, ◌||◌}
use mathlib.Core.Option.{Option, none, some}
use mathlib.Core.List.{List, [], ◌∷◌}
use native.Mathlib.Omega.{arith}
use heat_os.Prelude.Tests.{leb, leb-false, if◌then◌else◌}
use heat_os.Prelude.Lists.{length, take, drop, length-take, length-drop}

infixl 5 ◌>>=◌ ◌>>◌
abbrev pub ◌>>=◌ {ℓ κ} : {A : Type ℓ} {B : Type κ} → Option A → (A → Option B) → Option B
none >>= f = none
some a >>= f = f a

abbrev pub ◌>>◌ {ℓ κ} : {A : Type ℓ} {B : Type κ} → Option A → Option B → Option B
m >> k = m >>= λ a. k

unfoldable pub byte : List ℕ → ℕ → Option ℕ
byte [] i = none
byte (b ∷ p) zero = some b
byte (b ∷ p) (suc i) = byte p i

-- The `n` bytes at index `at`.
unfoldable pub slice : ℕ → ℕ → List ℕ → Option (List ℕ)
slice at n p = if leb (at + n) (length p) then some (take n (drop at p)) else none

-- There is a result, and it has the property.
abbrev pub Gives {ℓ} : {A : Type ℓ} → (A → Type 0) → Option A → Type 0
Gives P none = ⊥
Gives P (some a) = P a

module _ {ℓ} {A : Type ℓ} (P : A → Type 0) where
  pub bind-Gives {κ} :
      {B : Type κ} (Q : B → Type 0) (m : Option B) (f : B → Option A)
      → Gives Q m
      → ((b : B) → Q b → Gives P (f b))
      → Gives P (m >>= f)
  bind-Gives Q none f h k = elim h [ ]
  bind-Gives Q (some b) f h k = k b h

  pub if-Gives :
      (b : Bool) (x y : Option A)
      → (b ≡ true → Gives P x)
      → (b ≡ false → Gives P y)
      → Gives P (if b then x else y)
  if-Gives true x y h k = h refl
  if-Gives false x y h k = k refl

  pub Gives-result : (m : Option A) → Gives P m → (a : A) × (m ≡ some a) × P a
  Gives-result none h = elim h [ ]
  Gives-result (some a) h = (a, refl, h)

abbrev pub Any {ℓ} : {A : Type ℓ} → A → Type 0
Any a = Unit

pub byte-Gives : (p : List ℕ) (i : ℕ) → i < length p → Gives Any (byte p i)
unfolding byte
byte-Gives [] i h = absurd (omega arith)
byte-Gives (b ∷ p) zero h = tt
byte-Gives (b ∷ p) (suc i) h = byte-Gives p i (omega arith)

pub slice-Gives :
    (at n : ℕ) (p : List ℕ) → at + n ≤ length p → Gives (λ q. length q ≡ n) (slice at n p)
unfolding slice
slice-Gives at n p h =
    if-Gives (λ q. length q ≡ n) (leb (at + n) (length p)) _ _
      (λ e. length-take n (drop at p) ∙ let d = length-drop at p in omega arith)
      (λ e. absurd (let lt = leb-false _ _ e in omega arith))

pub Gives_weaken {ℓ} :
    {A : Type ℓ} (P Q : A → Type 0) (m : Option A) → ((a : A) → P a → Q a) → Gives P m → Gives Q m
Gives_weaken P Q none f h = h
Gives_weaken P Q (some a) f h = f a h

pub or-false : (a b : Bool) → (a || b) ≡ false → (a ≡ false) × (b ≡ false)
or-false true b h = ground arith
or-false false b h = (refl, h)

-- The result, if there is one, has the property.
abbrev pub Leaves {ℓ} : {A : Type ℓ} → (A → Type 0) → Option A → Type 0
Leaves P none = Unit
Leaves P (some a) = P a

pub if-Leaves {ℓ} :
    {A : Type ℓ} (P : A → Type 0) (b : Bool) (x y : Option A)
    → (b ≡ true → Leaves P x)
    → (b ≡ false → Leaves P y)
    → Leaves P (if b then x else y)
if-Leaves P true x y h k = h refl
if-Leaves P false x y h k = k refl

pub bind-Leaves {ℓ κ} :
    {A : Type ℓ} {B : Type κ} (P : A → Type 0) (Q : B → Type 0) (m : Option B) (f : B → Option A)
    → Leaves Q m
    → ((b : B) → Q b → Leaves P (f b))
    → Leaves P (m >>= f)
bind-Leaves P Q none f h k = tt
bind-Leaves P Q (some b) f h k = k b h
