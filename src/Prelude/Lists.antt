-- ===== src/Prelude/Lists.antt =====
-- Lists measured and indexed by native numbers, under the library's names.
use Prim.Native.Nat.{ℕ, zero, suc, ◌+◌, ◌-◌, ◌≤◌, min}
use mathlib.Core.Path.{◌≡◌, refl, sym, ap, ◌∙◌}
use mathlib.Core.List.{List, [], ◌∷◌, ◌++◌}
use native.Mathlib.Omega.{arith}

module _ {ℓ} {A : Type ℓ} where
  abbrev pub length : List A → ℕ
  length [] = 0
  length (x ∷ xs) = suc (length xs)

  abbrev pub take : ℕ → List A → List A
  take zero xs = []
  take (suc n) [] = []
  take (suc n) (x ∷ xs) = x ∷ take n xs

  abbrev pub drop : ℕ → List A → List A
  drop zero xs = xs
  drop (suc n) [] = []
  drop (suc n) (x ∷ xs) = drop n xs

  -- The last `n` items.
  abbrev pub take_last : ℕ → List A → List A
  take_last n xs = drop (length xs - n) xs

  pub length-append : (xs ys : List A) → length (xs ++ ys) ≡ length xs + length ys
  length-append [] ys = omega arith
  length-append (x ∷ xs) ys = omega (arith, length-append xs ys)

  pub length-take : (n : ℕ) (xs : List A) → length (take n xs) ≡ min n (length xs)
  length-take zero xs = omega arith
  length-take (suc n) [] = omega arith
  length-take (suc n) (x ∷ xs) = omega (arith, length-take n xs)

  pub length-drop : (n : ℕ) (xs : List A) → length (drop n xs) ≡ length xs - n
  length-drop zero xs = omega arith
  length-drop (suc n) [] = omega arith
  length-drop (suc n) (x ∷ xs) = omega (arith, length-drop n xs)

  pub drop-append : (n : ℕ) (xs ys : List A) → n ≤ length xs → drop n (xs ++ ys) ≡ drop n xs ++ ys
  drop-append zero xs ys h = refl
  drop-append (suc n) [] ys h = absurd (omega arith)
  drop-append (suc n) (x ∷ xs) ys h = drop-append n xs ys (omega arith)

  pub drop-nil : (n : ℕ) → drop n [] ≡ []
  drop-nil zero = refl
  drop-nil (suc n) = refl

  pub drop-drop : (m n : ℕ) (xs : List A) → drop m (drop n xs) ≡ drop (n + m) xs
  drop-drop m zero xs = ap (λ k. drop k xs) (omega arith)
  drop-drop m (suc n) [] = drop-nil m ∙ sym (drop-nil (suc n + m))
  drop-drop m (suc n) (x ∷ xs) = drop-drop m n xs ∙ ap (λ k. drop k (x ∷ xs)) (step m n)
    where
      step : (m n : ℕ) → suc (n + m) ≡ suc n + m
      step m n = omega arith

  -- Keeping the last `n` items early on changes nothing of what is kept in the end.
  pub take_last_append :
      (n : ℕ) (xs ys : List A) → take_last n (take_last n xs ++ ys) ≡ take_last n (xs ++ ys)
  take_last_append n xs ys =
      let d : ℕ = length xs - n in
      let e : length (drop d xs) ≡ length xs - d = length-drop d xs in
      let m : ℕ = length (drop d xs ++ ys) - n in
      let em : m ≡ length xs - d + length ys - n = omega (arith, length-append (drop d xs) ys, e) in
      ap (drop m) (sym (drop-append d xs ys (omega arith)))
      ∙ (drop-drop m d (xs ++ ys)
          ∙ ap (λ k. drop k (xs ++ ys)) (omega (arith, em, length-append xs ys)))
