-- ===== src/CString/Memory.antt =====
-- `memset`, `memcpy`, `memmove` and `memcmp` of src/lib/string.c on a memory of bytes. An address is a
-- number; no object reaches past the end of the address space.
pub mod Moves
pub mod Regions
mod Tests
use heat_os.Prelude.{
  ℕ, zero, suc, ◌+◌, ◌-◌, ◌%◌, Bool, true, false, ltb, leb, ◌==◌, ◌||◌, not, if◌then◌else◌, update,
  ℤ, pos, ◌-ℤ◌,
}

unfoldable pub memset : ℕ → ℕ → ℕ → (ℕ → ℕ) → ℕ → ℕ
memset dst val zero m = m
memset dst val (suc n) m = memset (suc dst) val n (update m dst (val % 256))

-- `while (n--) *d++ = *s++;`
unfoldable pub copy_bytes : ℕ → ℕ → ℕ → (ℕ → ℕ) → ℕ → ℕ
copy_bytes zero d s m = m
copy_bytes (suc n) d s m = copy_bytes n (suc d) (suc s) (update m d (m s))

-- The four bytes of a word are read before the first is written.
unfoldable pub copy_word : ℕ → ℕ → (ℕ → ℕ) → ℕ → ℕ
copy_word d s m =
    update (update (update (update m d (m s)) (d + 1) (m (s + 1))) (d + 2) (m (s + 2))) (d + 3)
      (m (s + 3))

-- The loop over words, and the bytes that remain behind it.
unfoldable pub copy_words : ℕ → ℕ → ℕ → (ℕ → ℕ) → ℕ → ℕ
unfolding copy_bytes
copy_words zero d s m = m
copy_words (suc zero) d s m = copy_bytes 1 d s m
copy_words (suc (suc zero)) d s m = copy_bytes 2 d s m
copy_words (suc (suc (suc zero))) d s m = copy_bytes 3 d s m
copy_words (suc (suc (suc (suc n)))) d s m = copy_words n (d + 4) (s + 4) (copy_word d s m)

-- The loop in front, byte by byte until both addresses are multiples of four.
unfoldable pub copy_aligned : ℕ → ℕ → ℕ → (ℕ → ℕ) → ℕ → ℕ
unfolding copy_words
copy_aligned zero d s m = m
copy_aligned (suc n) d s m =
    let more = copy_aligned n (suc d) (suc s) (update m d (m s)) in
    if not (d % 4 == 0) || not (s % 4 == 0) then more else copy_words (suc n) d s m

unfoldable pub memcpy : ℕ → ℕ → ℕ → (ℕ → ℕ) → ℕ → ℕ
memcpy d s n m = if (d == s) || (n == 0) then m else copy_aligned n d s m

-- `while (n--) *--d = *--s;` from the ends.
unfoldable pub copy_back : ℕ → ℕ → ℕ → (ℕ → ℕ) → ℕ → ℕ
copy_back zero d s m = m
copy_back (suc n) d s m = copy_back n d s (update m (d + n) (m (s + n)))

unfoldable pub memmove : ℕ → ℕ → ℕ → (ℕ → ℕ) → ℕ → ℕ
unfolding copy_back
memmove d s n m =
    if (d == s) || (n == 0)
    then m
    else if ltb d s || leb (s + n) d
    then memcpy d s n m
    else copy_back n d s m

unfoldable pub memcmp : ℕ → ℕ → ℕ → (ℕ → ℕ) → ℤ
memcmp a b zero m = pos 0
memcmp a b (suc n) m =
    let rest = memcmp (suc a) (suc b) n m in if m a == m b then rest else pos (m a) -ℤ pos (m b)
