-- ===== src/CString/Compare.antt =====
-- `strcmp`, `strncmp`, `strchr` and `is_delim_char` of src/lib/string.c. The strings are the bytes
-- before the NUL, so a byte of them is never 0. A comparison returns the two bytes whose difference
-- the C function returns.
use heat_os.Prelude.{ℕ, zero, suc, Bool, Option, none, some, List, [], ◌∷◌, ◌==◌, if◌then◌else◌}

unfoldable pub strcmp : List ℕ → List ℕ → ℕ × ℕ
strcmp [] [] = (0, 0)
strcmp [] (y ∷ b) = (0, y)
strcmp (x ∷ a) [] = (x, 0)
strcmp (x ∷ a) (y ∷ b) = if x == y then strcmp a b else (x, y)

unfoldable pub strncmp : List ℕ → List ℕ → ℕ → ℕ × ℕ
strncmp a b zero = (0, 0)
strncmp [] [] (suc n) = (0, 0)
strncmp [] (y ∷ b) (suc n) = (0, y)
strncmp (x ∷ a) [] (suc n) = (x, 0)
strncmp (x ∷ a) (y ∷ b) (suc n) = if x == y then strncmp a b n else (x, y)

-- Whether a comparison returned 0.
unfoldable pub is_zero : ℕ × ℕ → Bool
is_zero (x, y) = x == y

-- The rest of the string from the character on.
unfoldable pub strchr : List ℕ → ℕ → Option (List ℕ)
strchr [] c = if c == 0 then some [] else none
strchr (x ∷ s) c = if x == c then some (x ∷ s) else strchr s c
