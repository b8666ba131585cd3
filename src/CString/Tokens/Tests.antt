-- ===== src/CString/Tokens/Tests.antt =====
-- Runs of `strtok_r` of src/lib/string.c.
use heat_os.Prelude.{ℕ, ◌≡◌, refl, some, List, [], ◌∷◌, length}
use heat_os.CString.Tokens.{strtok_r, or_space, skip_delims, split_token, is_delim_char}
use heat_os.CString.Tokens.Split.{IsToken, strtok_r-IsToken}

-- `" a;b"`, taken apart at blanks and semicolons
abbrev text : List ℕ
text = b' ' ∷ b'a' ∷ b';' ∷ b'b' ∷ []

abbrev delims : List ℕ
delims = b' ' ∷ b';' ∷ []

first_token : strtok_r text delims ≡ (some (b'a' ∷ []), b'b' ∷ [])
unfolding strtok_r or_space skip_delims split_token is_delim_char
first_token = refl

strtok_r-IsToken_example : IsToken (or_space delims) (length text) (strtok_r text delims)
strtok_r-IsToken_example = strtok_r-IsToken text delims
