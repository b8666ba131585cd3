-- ===== src/Prelude/Words.antt =====
-- Machine words: unsigned arithmetic of C keeps the low bits.
use Prim.Native.Nat.{ℕ, ◌+◌, ◌-◌, ◌*◌, ◌%◌, ◌^◌}

abbrev pub u32_mod : ℕ
u32_mod = 2 ^ 32

-- `uint32_t` addition, subtraction and product.
abbrev pub add32 : ℕ → ℕ → ℕ
add32 a b = (a + b) % u32_mod

abbrev pub sub32 : ℕ → ℕ → ℕ
sub32 a b = (a + u32_mod - b) % u32_mod

abbrev pub mul32 : ℕ → ℕ → ℕ
mul32 a b = a * b % u32_mod
