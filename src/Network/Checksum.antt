-- ===== src/Network/Checksum.antt =====
-- `checksum16` of src/drivers/network.c: what carries its own checksum is found right.
use heat_os.Prelude.{
  ℕ, zero, suc, ◌+◌, ◌-◌, ◌*◌, ◌/◌, ◌%◌, ◌^◌, ◌≤◌, ◌<◌, ◌≡◌, refl, ap, ◌∙◌, List, [], ◌∷◌, ◌++◌,
  ◌==◌, arith, length, add32, Bool-cases, inl, inr, eq→==, ne→==-false,
}
use native.Mathlib.Decide.{dec_lt}
use heat_os.Network.Bytes.{wr16be, sum_words, fold_carries, checksum16, with_field, checked}

-- A buffer of bytes, no longer than a frame can be.
abbrev pub AreBytes : List ℕ → Type 0
AreBytes [] = Unit
AreBytes (b ∷ p) = (b < 256) × AreBytes p

-- The sum with no wrap-around.
unfoldable pub word_sum : List ℕ → ℕ
word_sum [] = 0
word_sum (a ∷ []) = a * 256
word_sum (a ∷ b ∷ p) = a * 256 + b + word_sum p

word_sum-le : (p : List ℕ) → AreBytes p → word_sum p ≤ 65535 * length p
unfolding word_sum
word_sum-le [] v = omega arith
word_sum-le (a ∷ []) v = omega arith
word_sum-le (a ∷ b ∷ p) (x, v) = let y = v.0 in let w = word_sum-le p v.1 in omega arith

sum_words-word_sum :
    (p : List ℕ) (sum : ℕ) → sum + word_sum p < 2 ^ 32 → sum_words p sum ≡ sum + word_sum p
unfolding sum_words word_sum
sum_words-word_sum [] sum h = omega arith
sum_words-word_sum (a ∷ []) sum h = omega arith
sum_words-word_sum (a ∷ b ∷ p) sum h =
    sum_words-word_sum p (add32 sum (a * 256 + b)) (omega arith) ∙ omega arith

-- A round keeps the sum modulo 65535, and leaves 0 only of 0.
fold_carries-mod : (fuel sum : ℕ) → fold_carries fuel sum % 65535 ≡ sum % 65535
unfolding fold_carries
fold_carries-mod zero sum = refl
fold_carries-mod (suc fuel) sum =
    let rest = fold_carries-mod fuel (sum % 65536 + sum / 65536) in
    elim (Bool-cases (sum / 65536 == 0)) [ inl e ↦ rw e refl | inr e ↦ rw e (rest ∙ omega arith) ]

fold_carries_positive : (fuel sum : ℕ) → 0 < sum → 0 < fold_carries fuel sum
unfolding fold_carries
fold_carries_positive zero sum h = h
fold_carries_positive (suc fuel) sum h =
    let rest = fold_carries_positive fuel (sum % 65536 + sum / 65536) (omega arith) in
    elim (Bool-cases (sum / 65536 == 0)) [ inl e ↦ rw e h | inr e ↦ rw e rest ]

fold_carries-small : (fuel sum : ℕ) → sum < 65536 → fold_carries (suc fuel) sum ≡ sum
unfolding fold_carries
fold_carries-small fuel sum h = rw (eq→== (sum / 65536) 0 (omega arith)) refl

fold_carries-step :
    (fuel sum : ℕ)
    → 65536 ≤ sum
    → fold_carries (suc fuel) sum ≡ fold_carries fuel (sum % 65536 + sum / 65536)
unfolding fold_carries
fold_carries-step fuel sum h = rw (ne→==-false (sum / 65536) 0 (λ e. omega arith)) refl

fold_carries-twice : (fuel sum : ℕ) → sum < 131071 → fold_carries (suc (suc fuel)) sum < 65536
fold_carries-twice fuel sum h = elim (dec_lt sum 65536) [
  | yes small ↦ rw (fold_carries-small (suc fuel) sum small) small
  | no big ↦
      let less : sum % 65536 + sum / 65536 < 65536 = omega arith in
      rw (fold_carries-step (suc fuel) sum (omega arith), fold_carries-small fuel _ less) less
]

fold_carries-lt : (sum : ℕ) → sum < 2 ^ 32 → fold_carries 3 sum < 65536
fold_carries-lt sum h = elim (dec_lt sum 65536) [
  | yes small ↦ rw (fold_carries-small 2 sum small) small
  | no big ↦ rw (fold_carries-step 2 sum (omega arith)) (fold_carries-twice 0 _ (omega arith))
]

word_sum-append : (p q : List ℕ) → length p % 2 ≡ 0 → word_sum (p ++ q) ≡ word_sum p + word_sum q
unfolding word_sum
word_sum-append [] q h = omega arith
word_sum-append (a ∷ []) q h = absurd (omega arith)
word_sum-append (a ∷ b ∷ p) q h = let rest = word_sum-append p q (omega arith) in omega arith

AreBytes-length : (p : List ℕ) → AreBytes p → length p ≤ 65536 → word_sum p < 2 ^ 32
AreBytes-length p bytes h = let le = word_sum-le p bytes in omega arith

-- What a sum with no wrap-around leaves.
checksum16_lem :
    (p : List ℕ) → word_sum p < 2 ^ 32 → checksum16 p ≡ 65535 - fold_carries 3 (word_sum p)
unfolding checksum16
checksum16_lem p h =
    let wide : 0 + word_sum p < 2 ^ 32 = omega (arith, h) in
    let zero_add : 0 + word_sum p ≡ word_sum p = omega arith in
    ap (λ s. 65535 - fold_carries 3 s) (sum_words-word_sum p 0 wide ∙ zero_add)

word_sum-with_field :
    (p q : List ℕ) (v : ℕ)
    → v < 65536
    → length p % 2 ≡ 0
    → word_sum (with_field p q v) ≡ word_sum p + v + word_sum q
unfolding with_field wr16be word_sum
word_sum-with_field p q v h even = word_sum-append p (wr16be v ++ q) even ∙ omega arith

-- The complement of a folded sum, added to it, folds to all ones.
complement :
    (bare full : ℕ)
    → bare < 2 ^ 32 - 65536
    → full ≡ bare + (65535 - fold_carries 3 bare)
    → 65535 - fold_carries 3 full ≡ 0
complement bare full h e =
    let b_lt = fold_carries-lt bare (omega arith) in
    let b_mod = fold_carries-mod 3 bare in
    let f_mod = fold_carries-mod 3 full in
    let positive : 0 < full = elim (dec_lt 0 bare) [
      | yes some_sum ↦ omega arith
      | no empty_sum ↦ let same = fold_carries-small 2 bare (omega arith) in omega arith
    ] in
    let f_positive = fold_carries_positive 3 full positive in omega arith

-- A message whose checksum field, at an even index, holds the checksum that `checksum16` finds of the
-- message with a zero field has itself the checksum 0. The parts beside the field are of bytes and together
-- shorter than 65,535 bytes.
pub checksum16-checked :
    (p q : List ℕ)
    → AreBytes p
    → AreBytes q
    → length p % 2 ≡ 0
    → length p + length q < 65535
    → checksum16 (checked p q) ≡ 0
unfolding checked
checksum16-checked p q p_bytes q_bytes even short =
    let p_sum = word_sum-le p p_bytes in
    let q_sum = word_sum-le q q_bytes in
    let bare : word_sum (with_field p q 0) ≡ word_sum p + word_sum q =
      word_sum-with_field p q 0 (omega arith) even ∙ omega arith in
    let first : checksum16 (with_field p q 0) ≡ 65535 - fold_carries 3 (word_sum p + word_sum q) =
      checksum16_lem (with_field p q 0) (omega arith) ∙ ap (λ s. 65535 - fold_carries 3 s) bare in
    let full = word_sum-with_field p q (checksum16 (with_field p q 0)) (omega arith) even in
    checksum16_lem (with_field p q (checksum16 (with_field p q 0))) (omega arith)
    ∙ complement (word_sum p + word_sum q) _ (omega arith) (omega arith)
