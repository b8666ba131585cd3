-- ===== src/Ramdisk/Path.antt =====
-- Paths of src/lib/ramdisk.c: tokens, `fs_resolve_checked` and `fs_build_path`.
use heat_os.Prelude.{
  ℕ, zero, suc, ◌+◌, ◌-◌, Bool, Option, none, some, List, [], ◌∷◌, ◌++◌, leb, ◌==◌, ◌||◌,
  if◌then◌else◌, length,
}
use heat_os.CString.Compare.{strcmp, is_zero}
use heat_os.Ramdisk.{Fs, max_nodes, name_len, to_lower_c, fs_find_child}

unfoldable pub is_separator : ℕ → Bool
is_separator c = (c == b' ') || (c == b'/')

-- `while (*p == ' ' || *p == '/') p++;`
unfoldable pub skip_separators : List ℕ → List ℕ
skip_separators [] = []
skip_separators (c ∷ p) = if is_separator c then skip_separators p else c ∷ p

-- The loop that fills `buf`: the token, and where `p` stands then.
unfoldable pub read_token : ℕ → List ℕ → List ℕ × List ℕ
read_token room [] = ([], [])
read_token zero (c ∷ p) = ([], c ∷ p)
read_token (suc room) (c ∷ p) =
    let (token, rest) = read_token room p in
    if is_separator c then ([], c ∷ p) else (to_lower_c c ∷ token, rest)

-- `while (*p && *p != ' ' && *p != '/') p++;`
unfoldable pub skip_token : List ℕ → List ℕ
skip_token [] = []
skip_token (c ∷ p) = if is_separator c then c ∷ p else skip_token p

-- The token and the rest at a position that is not a separator, if the string goes on there.
unfoldable pub token_at : List ℕ → Option (List ℕ × List ℕ)
token_at [] = none
token_at (c ∷ p) =
    let (token, rest) = read_token (name_len - 1) (c ∷ p) in some (token, skip_token rest)

unfoldable pub fs_next_token : List ℕ → Option (List ℕ × List ℕ)
unfolding token_at
fs_next_token p = token_at (skip_separators p)

-- `while (*p == '/') p++;`
unfoldable pub skip_slashes : List ℕ → List ℕ
skip_slashes [] = []
skip_slashes (c ∷ p) = if c == b'/' then skip_slashes p else c ∷ p

-- One component: the node that it leads to from `cur`, `some none` if there is none, `none` if the
-- search does not end.
unfoldable pub child_found : Option ℕ → Option (Option ℕ)
child_found none = none
child_found (some zero) = some none
child_found (some (suc n)) = some (some (suc n))

unfoldable pub step_into : ℕ → List ℕ → Fs → Option (Option ℕ)
unfolding child_found
step_into cur token fs =
    if is_zero (strcmp token (b'.' ∷ []))
    then some (some cur)
    else if is_zero (strcmp token (b'.' ∷ b'.' ∷ []))
    then some (some (if cur == 0 then cur else fs.parent cur))
    else child_found (fs_find_child cur token fs)

-- The loop of `fs_resolve_checked`; a round takes at least one byte of the path. The token that a
-- round reads is never empty, so that the test for an empty one is left out.
unfoldable pub resolve_from : ℕ → ℕ → List ℕ → Fs → Option (Option ℕ)
resolve_from zero cur p fs = none
resolve_from (suc fuel) cur p fs = elim (fs_next_token p) [
  | none ↦ some (some cur)
  | some (token, rest) ↦ elim (step_into cur token fs) [
    | none ↦ none
    | some none ↦ some none
    | some (some next) ↦ elim (skip_slashes rest) [
      | [] ↦ some (some next)
      | c ∷ p' ↦ resolve_from fuel next (c ∷ p') fs
    ]
  ]
]

-- `fs_resolve_checked`: `some none` for false, `none` for a search that does not end. A null path is
-- the empty one.
unfoldable pub fs_resolve_checked : List ℕ → Fs → Option (Option ℕ)
unfolding resolve_from
fs_resolve_checked [] fs = some (some fs.cwd)
fs_resolve_checked (c ∷ path) fs =
    if c == b'/'
    then resolve_from (length path + 1) 0 path fs
    else resolve_from (length (c ∷ path) + 1) fs.cwd (c ∷ path) fs

unfoldable pub or_root : Option (Option ℕ) → Option ℕ
or_root none = none
or_root (some none) = some 0
or_root (some (some n)) = some n

unfoldable pub fs_resolve : List ℕ → Fs → Option ℕ
unfolding or_root
fs_resolve path fs = or_root (fs_resolve_checked path fs)

-- The stack of `fs_build_path`, top first, without the root: from `cur` up, for `n` more entries.
unfoldable pub ancestors : ℕ → ℕ → Fs → List ℕ → List ℕ
ancestors zero cur fs stack = stack
ancestors (suc n) cur fs stack =
    let up = ancestors n (fs.parent cur) fs (cur ∷ stack) in if cur == 0 then stack else up

-- Characters are put until `buf_size - 1` of them stand in the buffer.
unfoldable pub put_chars : ℕ → List ℕ → List ℕ → List ℕ
put_chars buf_size out [] = out
put_chars buf_size out (c ∷ cs) =
    let more = put_chars buf_size (out ++ (c ∷ [])) cs in
    if leb buf_size (length out + 1) then out else more

-- The names with a slash behind each but the last.
unfoldable pub put_names : ℕ → List ℕ → List ℕ → Fs → List ℕ
put_names buf_size out [] fs = out
put_names buf_size out (n ∷ []) fs = put_chars buf_size out (fs.name n)
put_names buf_size out (n ∷ m ∷ stack) fs =
    put_names buf_size (put_chars buf_size (put_chars buf_size out (fs.name n)) (b'/' ∷ []))
      (m ∷ stack) fs

-- The text that `fs_build_path` leaves in a buffer of `buf_size` bytes, at least one. A buffer that is
-- full stays as it is, which is what the early return does.
unfoldable pub fs_build_path : ℕ → ℕ → Fs → List ℕ
unfolding ancestors put_names
fs_build_path node buf_size fs =
    if leb max_nodes node
    then []
    else if buf_size == 1
    then []
    else put_names buf_size (b'/' ∷ []) (ancestors max_nodes node fs []) fs
