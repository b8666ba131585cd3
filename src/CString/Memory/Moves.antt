-- ===== src/CString/Memory/Moves.antt =====
-- `memmove` of src/lib/string.c moves the bytes that were there before it, also where the areas overlap.
use native.Mathlib.Decide.{ℕ_discrete}
use heat_os.Prelude.{
  ℕ, zero, suc, ◌+◌, ◌%◌, ◌≤◌, ◌<◌, ◌≡◌, ◌≢◌, refl, ap, ◌∙◌, ◌⊎◌, inl, inr, true, false, ltb, leb,
  ◌==◌, ◌||◌, not, arith, Bool-cases, update, update_self, update_ne, ltb→lt, leb→le,
}
use heat_os.CString.Memory.{
  copy_bytes, copy_word, copy_words, copy_aligned, memcpy, copy_back, memmove,
}
use heat_os.CString.Memory.Regions.{
  IsMoved, IsForward, IsMoved-none, IsMoved-one, IsMoved-both, IsForward-tail,
}

copy_bytes-IsMoved :
    (n d s : ℕ) (m : ℕ → ℕ) → IsForward n d s → IsMoved n d s m (copy_bytes n d s m)
unfolding copy_bytes
copy_bytes-IsMoved zero d s m safe = IsMoved-none d s m
copy_bytes-IsMoved (suc n) d s m safe =
    IsMoved-both (suc n) 1 n d s (suc d) (suc s) (omega arith) safe (omega arith) (omega arith)
      (IsMoved-one d s m)
      (copy_bytes-IsMoved n (suc d) (suc s) (update m d (m s)) (
        IsForward-tail (suc n) 1 n d s (suc d) (suc s) (omega arith) safe (omega arith)
          (omega arith)))

copy_word-IsMoved : (d s : ℕ) (m : ℕ → ℕ) → IsMoved 4 d s m (copy_word d s m)
unfolding copy_word
copy_word-IsMoved d s m = record { moved = inside; kept = outside }
  where
    m1 : ℕ → ℕ
    m1 = update m d (m s)

    m2 : ℕ → ℕ
    m2 = update m1 (d + 1) (m (s + 1))

    m3 : ℕ → ℕ
    m3 = update m2 (d + 2) (m (s + 2))

    inside : (i : ℕ) → i < 4 → update m3 (d + 3) (m (s + 3)) (d + i) ≡ m (s + i)
    inside zero h =
        update_ne m3 (d + 3) (d + 0) (m (s + 3)) (λ e. omega arith)
        ∙ (update_ne m2 (d + 2) (d + 0) (m (s + 2)) (λ e. omega arith)
            ∙ (update_ne m1 (d + 1) (d + 0) (m (s + 1)) (λ e. omega arith)
                ∙ (IsMoved-one d s m).moved 0 (omega arith)))
    inside (suc zero) h =
        update_ne m3 (d + 3) (d + 1) (m (s + 3)) (λ e. omega arith)
        ∙ (update_ne m2 (d + 2) (d + 1) (m (s + 2)) (λ e. omega arith)
            ∙ update_self m1 (d + 1) (m (s + 1)))
    inside (suc (suc zero)) h =
        update_ne m3 (d + 3) (d + 2) (m (s + 3)) (λ e. omega arith)
        ∙ update_self m2 (d + 2) (m (s + 2))
    inside (suc (suc (suc zero))) h = update_self m3 (d + 3) (m (s + 3))
    inside (suc (suc (suc (suc i)))) h = absurd (omega arith)

    apart : (x : ℕ) → (x < d) ⊎ (d + 4 ≤ x) → (d ≢ x) × (d + 1 ≢ x) × (d + 2 ≢ x) × (d + 3 ≢ x)
    apart x (inl h) =
        ((λ e. omega arith), (λ e. omega arith), (λ e. omega arith), (λ e. omega arith))
    apart x (inr h) =
        ((λ e. omega arith), (λ e. omega arith), (λ e. omega arith), (λ e. omega arith))

    outside : (x : ℕ) → (x < d) ⊎ (d + 4 ≤ x) → update m3 (d + 3) (m (s + 3)) x ≡ m x
    outside x h =
        let (a, b, c, e) = apart x h in
        update_ne m3 (d + 3) x (m (s + 3)) e
        ∙ (update_ne m2 (d + 2) x (m (s + 2)) c
            ∙ (update_ne m1 (d + 1) x (m (s + 1)) b ∙ update_ne m d x (m s) a))

copy_words-IsMoved :
    (n d s : ℕ) (m : ℕ → ℕ) → IsForward n d s → IsMoved n d s m (copy_words n d s m)
unfolding copy_words
copy_words-IsMoved zero d s m safe = IsMoved-none d s m
copy_words-IsMoved (suc zero) d s m safe = copy_bytes-IsMoved 1 d s m safe
copy_words-IsMoved (suc (suc zero)) d s m safe = copy_bytes-IsMoved 2 d s m safe
copy_words-IsMoved (suc (suc (suc zero))) d s m safe = copy_bytes-IsMoved 3 d s m safe
copy_words-IsMoved (suc (suc (suc (suc n)))) d s m safe =
    IsMoved-both (suc (suc (suc (suc n)))) 4 n d s (d + 4) (s + 4) (omega arith) safe refl refl
      (copy_word-IsMoved d s m)
      (copy_words-IsMoved n (d + 4) (s + 4) (copy_word d s m) (
        IsForward-tail (suc (suc (suc (suc n)))) 4 n d s (d + 4) (s + 4) (omega arith) safe refl
          refl))

copy_aligned-IsMoved :
    (n d s : ℕ) (m : ℕ → ℕ) → IsForward n d s → IsMoved n d s m (copy_aligned n d s m)
unfolding copy_aligned
copy_aligned-IsMoved zero d s m safe = IsMoved-none d s m
copy_aligned-IsMoved (suc n) d s m safe = elim (Bool-cases (not (d % 4 == 0) || not (s % 4 == 0))) [
  | inr e ↦ rw e (copy_words-IsMoved (suc n) d s m safe)
  | inl e ↦ rw e (
      IsMoved-both (suc n) 1 n d s (suc d) (suc s) (omega arith) safe (omega arith) (omega arith)
        (IsMoved-one d s m)
        (copy_aligned-IsMoved n (suc d) (suc s) (update m d (m s)) (
          IsForward-tail (suc n) 1 n d s (suc d) (suc s) (omega arith) safe (omega arith)
            (omega arith))))
]

copy_back-IsMoved : (n d s : ℕ) (m : ℕ → ℕ) → s < d → IsMoved n d s m (copy_back n d s m)
unfolding copy_back
copy_back-IsMoved zero d s m h = IsMoved-none d s m
copy_back-IsMoved (suc n) d s m h =
    both (copy_back n d s (update m (d + n) (m (s + n))))
      (copy_back-IsMoved n d s (update m (d + n) (m (s + n))) h)
  where
    m1 : ℕ → ℕ
    m1 = update m (d + n) (m (s + n))

    both : (m2 : ℕ → ℕ) → IsMoved n d s m1 m2 → IsMoved (suc n) d s m m2
    both m2 rest = record { moved = all; kept = others }
      where
        all : (i : ℕ) → i < suc n → m2 (d + i) ≡ m (s + i)
        all i low = elim (ℕ_discrete i n) [
          | yes e ↦ rw e (rest.kept (d + n) (inr (omega arith)) ∙ update_self m (d + n) (m (s + n)))
          | no ne ↦
              rest.moved i (omega arith)
              ∙ update_ne m (d + n) (s + i) (m (s + n)) (λ e. omega arith)
        ]

        others : (x : ℕ) → (x < d) ⊎ (d + suc n ≤ x) → m2 x ≡ m x
        others x (inl w) =
            rest.kept x (inl w) ∙ update_ne m (d + n) x (m (s + n)) (λ e. omega arith)
        others x (inr w) =
            rest.kept x (inr (omega arith)) ∙ update_ne m (d + n) x (m (s + n)) (λ e. omega arith)

-- Where nothing is copied nothing has to be.
IsMoved-idle : (d s n : ℕ) (m : ℕ → ℕ) → ((d == s) || (n == 0)) ≡ true → IsMoved n d s m m
IsMoved-idle d s n m e = record { moved = same; kept = λ x h. refl }
  where
    same : (i : ℕ) → i < n → m (d + i) ≡ m (s + i)
    same i h = ap (λ a. m (a + i)) (equal h)
      where
        equal : i < n → d ≡ s
        equal h = ground arith

memcpy-IsMoved : (d s n : ℕ) (m : ℕ → ℕ) → IsForward n d s → IsMoved n d s m (memcpy d s n m)
unfolding memcpy
memcpy-IsMoved d s n m safe = elim (Bool-cases ((d == s) || (n == 0))) [
  | inl e ↦ rw e (IsMoved-idle d s n m e)
  | inr e ↦ rw e (copy_aligned-IsMoved n d s m safe)
]

-- After `memmove` the target area has the bytes that the source area had before, also where the two
-- overlap, and every other byte is as it was.
pub memmove-IsMoved : (d s n : ℕ) (m : ℕ → ℕ) → IsMoved n d s m (memmove d s n m)
unfolding memmove
memmove-IsMoved d s n m = elim (Bool-cases ((d == s) || (n == 0))) [
  | inl e ↦ rw e (IsMoved-idle d s n m e)
  | inr e ↦ elim (Bool-cases (ltb d s || leb (s + n) d)) [
    | inl safe ↦ rw (e, safe) (memcpy-IsMoved d s n m (forward safe))
    | inr over ↦ rw (e, over) (copy_back-IsMoved n d s m (behind e over))
  ]
]
  where
    forward : (ltb d s || leb (s + n) d) ≡ true → IsForward n d s
    forward safe = elim (Bool-cases (ltb d s)) [
      | inl lt ↦ inl (omega (arith, ltb→lt d s lt))
      | inr ge ↦ inr (leb→le (s + n) d (rw ge at safe))
    ]

    behind : ((d == s) || (n == 0)) ≡ false → (ltb d s || leb (s + n) d) ≡ false → s < d
    behind e over = ground arith
