-- ===== src/CString/Tokens/Split.antt =====
-- `strtok_r` of src/lib/string.c: what a token is, and that the calls come to an end.
use heat_os.Prelude.{
  ℕ, ◌≤◌, ◌<◌, ◌≡◌, ◌≢◌, refl, Bool, true, false, Option, none, some, List, [], ◌∷◌, ◌&&◌, not,
  arith, length, Bool-cases, inl, inr,
}
use heat_os.CString.Tokens.{is_delim_char, skip_delims, split_token, token_of, or_space, strtok_r}

-- No byte is a delimiter.
unfoldable pub has_none : List ℕ → List ℕ → Bool
has_none delim [] = true
has_none delim (c ∷ text) = not (is_delim_char c delim) && has_none delim text

-- The text does not start with a delimiter.
abbrev StartsToken : List ℕ → List ℕ → Type 0
StartsToken delim [] = Unit
StartsToken delim (c ∷ p) = is_delim_char c delim ≡ false

skip_delims-StartsToken : (delim p : List ℕ) → StartsToken delim (skip_delims delim p)
unfolding skip_delims
skip_delims-StartsToken delim [] = tt
skip_delims-StartsToken delim (c ∷ p) = elim (Bool-cases (is_delim_char c delim)) [
  | inl e ↦ rw e (skip_delims-StartsToken delim p)
  | inr e ↦ rw e e
]

length-skip_delims : (delim p : List ℕ) → length (skip_delims delim p) ≤ length p
unfolding skip_delims
length-skip_delims delim [] = omega arith
length-skip_delims delim (c ∷ p) = elim (Bool-cases (is_delim_char c delim)) [
  | inl e ↦ rw e (omega (arith, length-skip_delims delim p))
  | inr e ↦ rw e (omega arith)
]

has_none-split_token : (delim p : List ℕ) → has_none delim (split_token delim p).0 ≡ true
unfolding split_token has_none
has_none-split_token delim [] = refl
has_none-split_token delim (c ∷ p) = elim (Bool-cases (is_delim_char c delim)) [
  | inl e ↦ rw e refl
  | inr e ↦ rw (e, e) (has_none-split_token delim p)
]

length-split_token : (delim p : List ℕ) → length (split_token delim p).1 ≤ length p
unfolding split_token
length-split_token delim [] = omega arith
length-split_token delim (c ∷ p) = elim (Bool-cases (is_delim_char c delim)) [
  | inl e ↦ rw e (omega arith)
  | inr e ↦ rw e (omega (arith, length-split_token delim p))
]

split_token-progress :
    (delim : List ℕ) (c : ℕ) (p : List ℕ)
    → is_delim_char c delim ≡ false
    → ((split_token delim (c ∷ p)).0 ≢ []) × (length (split_token delim (c ∷ p)).1 ≤ length p)
unfolding split_token
split_token-progress delim c p e = rw e ((λ w. cc), length-split_token delim p)

-- What a call that returns a token has done with a text of at most `n` bytes.
abbrev pub IsToken : List ℕ → ℕ → Option (List ℕ) × List ℕ → Type 0
IsToken delim n (none, rest) = rest ≡ []
IsToken delim n (some token, rest) =
    (token ≢ []) × (has_none delim token ≡ true) × (length rest < n)

token_of-IsToken :
    (delim q : List ℕ) (n : ℕ)
    → StartsToken delim q
    → length q ≤ n
    → IsToken delim n (token_of delim q)
unfolding token_of
token_of-IsToken delim [] n s le = refl
token_of-IsToken delim (c ∷ p) n s le =
    let (full, shorter) = split_token-progress delim c p s in
    (full, has_none-split_token delim (c ∷ p), omega (arith, shorter))

-- A call of `strtok_r` gives either no token, with nothing left, or a token that is not empty and has no
-- delimiter in it, and leaves a shorter text than it found, so that repeated calls come to an end.
pub strtok_r-IsToken : (p delim : List ℕ) → IsToken (or_space delim) (length p) (strtok_r p delim)
unfolding strtok_r
strtok_r-IsToken p delim =
    token_of-IsToken (or_space delim) (skip_delims (or_space delim) p) (length p)
      (skip_delims-StartsToken (or_space delim) p) (length-skip_delims (or_space delim) p)
