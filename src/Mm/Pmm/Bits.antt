-- ===== src/Mm/Pmm/Bits.antt =====
-- One bit of a byte, and one bit of the bitmap of src/kernel/mm.c, written and read back.
use heat_os.Prelude.{
  ℕ, ◌/◌, ◌%◌, ◌<◌, ◌≡◌, refl, ap, Bool, true, false, ◌&&◌, ◌||◌, not, ◌==◌, arith, Bool-cases, inl,
  inr, passes, passes-at, ==→eq, eq→==, ne→==-false, ==-false, sym,
}
use heat_os.Mm.Pmm.{
  Pmm, byte_set, byte_clear, byte_test, pmm_bitmap_set, pmm_bitmap_clear, pmm_bitmap_test,
}

abbrev same : Bool → Bool → Bool
same true b = b
same false b = not b

same→eq : (a b : Bool) → same a b ≡ true → a ≡ b
same→eq true b h = ground arith
same→eq false b h = ground arith

-- What setting or clearing bit `i` of byte `b` does to the byte and to its bit `j`.
abbrev set_good : ℕ → ℕ → ℕ → Bool
set_good b i j = same (byte_test (byte_set b i) j) ((i == j) || byte_test b j)

abbrev clear_good : ℕ → ℕ → ℕ → Bool
clear_good b i j = same (byte_test (byte_clear b i) j) (not (i == j) && byte_test b j)

set_table : passes (λ b. passes (λ i. passes (λ j. set_good b i j) 8) 8) 256 ≡ true
unfolding passes byte_set byte_test
set_table = refl

clear_table : passes (λ b. passes (λ i. passes (λ j. clear_good b i j) 8) 8) 256 ≡ true
unfolding passes byte_clear byte_test
clear_table = refl

module _ (b i j : ℕ) (hb : b < 256) (hi : i < 8) (hj : j < 8) where
  test-set : byte_test (byte_set b i) j ≡ ((i == j) || byte_test b j)
  test-set = same→eq _ _ (
      passes-at (λ j. set_good b i j) 8
        (passes-at (λ i. passes (λ j. set_good b i j) 8) 8
          (passes-at (λ b. passes (λ i. passes (λ j. set_good b i j) 8) 8) 256 set_table b hb) i hi)
        j hj)

  test-clear : byte_test (byte_clear b i) j ≡ (not (i == j) && byte_test b j)
  test-clear = same→eq _ _ (
      passes-at (λ j. clear_good b i j) 8
        (passes-at (λ i. passes (λ j. clear_good b i j) 8) 8
          (passes-at (λ b. passes (λ i. passes (λ j. clear_good b i j) 8) 8) 256 clear_table b hb) i
          hi)
        j hj)

-- Every entry of the bitmap is a byte.
abbrev pub IsBytes : Pmm → Type 0
IsBytes p = (i : ℕ) → p.bitmap i < 256

eq_of_parts : (i j : ℕ) → i / 8 ≡ j / 8 → i % 8 ≡ j % 8 → i ≡ j
eq_of_parts i j d m = omega arith

module _ (i j : ℕ) (p : Pmm) (v : IsBytes p) where
  split-same : i / 8 ≡ j / 8 → (i % 8 == j % 8) ≡ (i == j)
  split-same d = elim (Bool-cases (i % 8 == j % 8)) [
    | inl e ↦ rw e (sym (eq→== i j (eq_of_parts i j d (==→eq (i % 8) (j % 8) e))))
    | inr e ↦ rw e (sym (ne→==-false i j (λ w. ==-false (i % 8) (j % 8) e (ap (λ k. k % 8) w))))
  ]

  -- A set bit reads back as set, and every other bit as before.
  pub test-set_page : pmm_bitmap_test j (pmm_bitmap_set i p) ≡ ((i == j) || pmm_bitmap_test j p)
  unfolding pmm_bitmap_test pmm_bitmap_set
  test-set_page = elim (Bool-cases (i / 8 == j / 8)) [
    | inl e ↦
        let d : i / 8 ≡ j / 8 = ==→eq (i / 8) (j / 8) e in
        rw (
          e,
          test-set (p.bitmap (i / 8)) (i % 8) (j % 8) (v (i / 8)) (omega arith) (omega arith),
          split-same d,
          d,
        )
    | inr e ↦ rw (e, ne→==-false i j (λ w. ==-false (i / 8) (j / 8) e (ap (λ k. k / 8) w)))
  ]

  -- A cleared bit reads back as clear, and every other bit as before.
  pub test-clear_page :
      pmm_bitmap_test j (pmm_bitmap_clear i p) ≡ (not (i == j) && pmm_bitmap_test j p)
  unfolding pmm_bitmap_test pmm_bitmap_clear
  test-clear_page = elim (Bool-cases (i / 8 == j / 8)) [
    | inl e ↦
        let d : i / 8 ≡ j / 8 = ==→eq (i / 8) (j / 8) e in
        rw (
          e,
          test-clear (p.bitmap (i / 8)) (i % 8) (j % 8) (v (i / 8)) (omega arith) (omega arith),
          split-same d,
          d,
        )
    | inr e ↦ rw (e, ne→==-false i j (λ w. ==-false (i / 8) (j / 8) e (ap (λ k. k / 8) w)))
  ]

module _ (i : ℕ) (p : Pmm) (v : IsBytes p) where
  pub set_page-IsBytes : IsBytes (pmm_bitmap_set i p)
  unfolding pmm_bitmap_set byte_set
  set_page-IsBytes k = ground (arith, v k)

  pub clear_page-IsBytes : IsBytes (pmm_bitmap_clear i p)
  unfolding pmm_bitmap_clear byte_clear
  clear_page-IsBytes k = ground (arith, v k)
