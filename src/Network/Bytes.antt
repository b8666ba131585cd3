-- ===== src/Network/Bytes.antt =====
-- The byte helpers of src/drivers/network.c. A buffer is the list of its bytes; a read past its end is
-- `none`.
use heat_os.Prelude.{
  ◌>>=◌, byte, ℕ, zero, suc, ◌+◌, ◌-◌, ◌*◌, ◌/◌, ◌%◌, Bool, true, false, Option, some, List, [],
  ◌∷◌, ◌++◌, ◌==◌, ◌&&◌, if◌then◌else◌, add32,
}

-- `bytes_equal` on two areas of the same length.
unfoldable pub bytes_equal : List ℕ → List ℕ → Bool
bytes_equal [] [] = true
bytes_equal [] (b ∷ q) = false
bytes_equal (a ∷ p) [] = false
bytes_equal (a ∷ p) (b ∷ q) = (a == b) && bytes_equal p q

unfoldable pub rd16be : List ℕ → ℕ → Option ℕ
rd16be p at = do hi ← byte p at; lo ← byte p (at + 1); some (hi * 256 + lo)

-- The two bytes that `wr16be` writes.
unfoldable pub wr16be : ℕ → List ℕ
wr16be v = v / 256 % 256 ∷ v % 256 ∷ []

-- The sum of the words in `checksum16`, the last byte of an odd number padded with a zero.
unfoldable pub sum_words : List ℕ → ℕ → ℕ
sum_words [] sum = sum
sum_words (a ∷ []) sum = add32 sum (a * 256)
sum_words (a ∷ b ∷ p) sum = sum_words p (add32 sum (a * 256 + b))

-- `while (sum >> 16) sum = (sum & 0xFFFF) + (sum >> 16);`
unfoldable pub fold_carries : ℕ → ℕ → ℕ
fold_carries zero sum = sum
fold_carries (suc fuel) sum =
    let rest = fold_carries fuel (sum % 65536 + sum / 65536) in
    if sum / 65536 == 0 then sum else rest

-- `checksum16`; three rounds fold any sum of 32 bits.
unfoldable pub checksum16 : List ℕ → ℕ
checksum16 p = 65535 - fold_carries 3 (sum_words p 0)

-- A message with a field of two bytes between `p` and `q`.
unfoldable pub with_field : List ℕ → List ℕ → ℕ → List ℕ
with_field p q v = p ++ (wr16be v ++ q)

-- The message whose field holds the checksum of the message with a zero field.
unfoldable pub checked : List ℕ → List ℕ → List ℕ
checked p q = with_field p q (checksum16 (with_field p q 0))
