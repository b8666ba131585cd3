-- ===== src/CString/Tokens.antt =====
-- `strtok_r`, `strstr` and the copies of src/lib/string.c on strings as lists of bytes.
pub mod Split
mod Tests
use heat_os.Prelude.{
  ℕ, zero, suc, ◌+◌, Bool, true, false, Option, none, some, List, [], ◌∷◌, ◌++◌, ◌==◌, ◌||◌,
  if◌then◌else◌, length,
}
use heat_os.CString.Compare.{strncmp, is_zero}

unfoldable pub strlen : List ℕ → ℕ
strlen s = length s

unfoldable pub strnlen : List ℕ → ℕ → ℕ
strnlen s zero = 0
strnlen [] (suc max_len) = 0
strnlen (c ∷ s) (suc max_len) = strnlen s max_len + 1

unfoldable pub strcat : List ℕ → List ℕ → List ℕ
strcat [] src = src
strcat (c ∷ dst) src = c ∷ strcat dst src

-- All `n` bytes that `strncpy` writes.
unfoldable pub strncpy : List ℕ → ℕ → List ℕ
strncpy src zero = []
strncpy [] (suc n) = 0 ∷ strncpy [] n
strncpy (c ∷ src) (suc n) = c ∷ strncpy src n

-- The haystack from the first occurrence on.
unfoldable pub find_in : List ℕ → List ℕ → Option (List ℕ)
find_in [] needle = none
find_in (c ∷ haystack) needle =
    let rest = find_in haystack needle in
    if is_zero (strncmp (c ∷ haystack) needle (length needle)) then some (c ∷ haystack) else rest

unfoldable pub strstr : List ℕ → List ℕ → Option (List ℕ)
unfolding find_in
strstr haystack [] = some haystack
strstr haystack (n ∷ needle) = find_in haystack (n ∷ needle)

unfoldable pub is_delim_char : ℕ → List ℕ → Bool
is_delim_char c [] = false
is_delim_char c (d ∷ delim) = (c == d) || is_delim_char c delim

-- `while (*p && is_delim_char(*p, delim)) p++;`
unfoldable pub skip_delims : List ℕ → List ℕ → List ℕ
skip_delims delim [] = []
skip_delims delim (c ∷ p) = if is_delim_char c delim then skip_delims delim p else c ∷ p

-- The bytes up to the next delimiter, and the text behind that one.
unfoldable pub split_token : List ℕ → List ℕ → List ℕ × List ℕ
split_token delim [] = ([], [])
split_token delim (c ∷ p) =
    let (token, rest) = split_token delim p in
    if is_delim_char c delim then ([], p) else (c ∷ token, rest)

unfoldable pub token_of : List ℕ → List ℕ → Option (List ℕ) × List ℕ
token_of delim [] = (none, [])
token_of delim (c ∷ p) = let (token, rest) = split_token delim (c ∷ p) in (some token, rest)

unfoldable pub or_space : List ℕ → List ℕ
or_space [] = b' ' ∷ []
or_space (d ∷ delim) = d ∷ delim

-- `strtok_r`: the token, and the text that `*saveptr` points to behind the call, `p` being `str` or, for
-- a null `str`, what `*saveptr` pointed to.
unfoldable pub strtok_r : List ℕ → List ℕ → Option (List ℕ) × List ℕ
unfolding token_of
strtok_r p delim = token_of (or_space delim) (skip_delims (or_space delim) p)
