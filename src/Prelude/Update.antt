-- ===== src/Prelude/Update.antt =====
-- Arrays and memory as functions from an index, with a write at one index.
use Prim.Native.Nat.{ℕ}
use mathlib.Core.Path.{◌≡◌}
use native.Mathlib.Omega.{arith}
use heat_os.Prelude.Tests.{◌==◌, if◌then◌else◌}

module _ {ℓ} {A : Type ℓ} where
  abbrev pub update : (ℕ → A) → ℕ → A → ℕ → A
  update f i v j = if i == j then v else f j

  pub update_self : (f : ℕ → A) (i : ℕ) (v : A) → update f i v i ≡ v
  update_self f i v = ground arith

  pub update_ne : (f : ℕ → A) (i j : ℕ) (v : A) → (i ≡ j → ⊥) → update f i v j ≡ f j
  update_ne f i j v h = ground arith
