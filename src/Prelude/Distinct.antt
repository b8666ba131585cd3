-- ===== src/Prelude/Distinct.antt =====
-- Lists of distinct numbers.
use Prim.Native.Nat.{ℕ, zero, suc, ◌≤◌, ◌<◌}
use mathlib.Core.Path.{◌≡◌, refl, sym}
use mathlib.Core.Logic.{◌≢◌, ◌⊎◌, inl, inr}
use mathlib.Core.List.{List, [], ◌∷◌}
use native.Mathlib.Omega.{arith}
use native.Mathlib.Decide.{ℕ_discrete}
use heat_os.Prelude.Tests.{◌==◌, if◌then◌else◌, eq→==, ne→==-false, Bool-cases}
use heat_os.Prelude.Lists.{length}

abbrev pub NotIn : ℕ → List ℕ → Type 0
NotIn a [] = Unit
NotIn a (x ∷ l) = (a ≢ x) × NotIn a l

abbrev pub IsIn : ℕ → List ℕ → Type 0
IsIn a [] = ⊥
IsIn a (x ∷ l) = (a ≡ x) ⊎ IsIn a l

pub NotIn-both : (a : ℕ) (l : List ℕ) → NotIn a l → IsIn a l → ⊥
NotIn-both a [] o i = i
NotIn-both a (x ∷ l) (ne, o) (inl e) = ne e
NotIn-both a (x ∷ l) (ne, o) (inr i) = NotIn-both a l o i

-- A list without the number `a`.
drop_all : ℕ → List ℕ → List ℕ
drop_all a [] = []
drop_all a (x ∷ l) = if x == a then drop_all a l else x ∷ drop_all a l

-- The numbers of `l` are distinct and below `n`.
abbrev pub IsDistinctBelow : ℕ → List ℕ → Type 0
IsDistinctBelow n [] = Unit
IsDistinctBelow n (x ∷ l) = (x < n) × NotIn x l × IsDistinctBelow n l

drop_all-NotIn : (a x : ℕ) (l : List ℕ) → NotIn x l → NotIn x (drop_all a l)
unfolding drop_all
drop_all-NotIn a x [] o = tt
drop_all-NotIn a x (y ∷ l) (ne, o) = elim (Bool-cases (y == a)) [
  | inl e ↦ rw e (drop_all-NotIn a x l o)
  | inr e ↦ rw e (ne, drop_all-NotIn a x l o)
]

drop_all_absent : (a : ℕ) (l : List ℕ) → NotIn a l → drop_all a l ≡ l
unfolding drop_all
drop_all_absent a [] o = refl
drop_all_absent a (x ∷ l) (ne, o) = rw (ne→==-false x a (λ e. ne (sym e)), drop_all_absent a l o)

length-drop_all :
    (n a : ℕ) (l : List ℕ) → IsDistinctBelow n l → length l ≤ suc (length (drop_all a l))
unfolding drop_all
length-drop_all n a [] d = omega arith
length-drop_all n a (x ∷ l) (b, o, d) = elim (ℕ_discrete x a) [
  | yes e ↦ rw (eq→== x a e, drop_all_absent a l (rw e at o)) (omega arith)
  | no ne ↦ rw (ne→==-false x a ne) (omega (arith, length-drop_all n a l d))
]

drop_all-IsDistinctBelow :
    (n : ℕ) (l : List ℕ) → IsDistinctBelow (suc n) l → IsDistinctBelow n (drop_all n l)
unfolding drop_all
drop_all-IsDistinctBelow n [] d = tt
drop_all-IsDistinctBelow n (x ∷ l) (b, o, d) = elim (ℕ_discrete x n) [
  | yes e ↦ rw (eq→== x n e) (drop_all-IsDistinctBelow n l d)
  | no ne ↦
      rw (ne→==-false x n ne) (omega arith, drop_all-NotIn n x l o, drop_all-IsDistinctBelow n l d)
]

-- There are at most `n` distinct numbers below `n`.
pub length-IsDistinctBelow : (n : ℕ) (l : List ℕ) → IsDistinctBelow n l → length l ≤ n
length-IsDistinctBelow zero [] d = omega arith
length-IsDistinctBelow zero (x ∷ l) d = absurd (omega arith)
length-IsDistinctBelow (suc n) l d = omega (
  arith,
  length-drop_all (suc n) n l d,
  length-IsDistinctBelow n (drop_all n l) (drop_all-IsDistinctBelow n l d),
)
