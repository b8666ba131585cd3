-- ===== src/CString/Digits.antt =====
-- `utoa` and `itoa` of src/lib/string.c: numbers printed in a base.
use heat_os.Prelude.{
  ℕ, zero, suc, ◌+◌, ◌-◌, ◌^◌, ℤ, pos, negsuc, ◌/◌, ◌%◌, List, [], ◌∷◌, ltb, ◌==◌, if◌then◌else◌,
}

-- `d < 10 ? '0' + d : 'A' + d - 10`
unfoldable pub digit_char : ℕ → ℕ
digit_char d = if ltb d 10 then b'0' + d else b'A' + d - 10

-- The `do … while (value)` loop, with what `tmp` holds so far; `tmp` has its last digit first, so
-- that the list is in the order in which the second loop copies it to `buf`.
unfoldable pub utoa_loop : ℕ → ℕ → ℕ → List ℕ → List ℕ
utoa_loop zero value base out = out
utoa_loop (suc fuel) value base out =
    let out' = digit_char (value % base) ∷ out in
    let rest = utoa_loop fuel (value / base) base out' in if value / base == 0 then out' else rest

-- 34 rounds, the size of `tmp`.
unfoldable pub utoa : ℕ → ℕ → List ℕ
unfolding utoa_loop digit_char
utoa value base = utoa_loop 34 value base []

-- `itoa`: a sign only in base 10; in another base a negative number is printed as its 32-bit pattern.
unfoldable pub itoa : ℤ → ℕ → List ℕ
itoa (pos n) base = utoa n base
itoa (negsuc n) base = if base == 10 then b'-' ∷ utoa (n + 1) base else utoa (2 ^ 32 - (n + 1)) base
