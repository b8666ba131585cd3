-- ===== src/Java/Descriptor.antt =====
-- `jvm_desc_args` of src/commands/java.c: the descriptor of a method.
use heat_os.Prelude.{
  ℕ, ◌+◌, Bool, Option, none, some, List, [], ◌∷◌, ltb, ◌==◌, ◌||◌, if◌then◌else◌, length, ◌>>=◌,
}

-- Where the next character stands: at a new argument or the end, behind `[`, or in the name of a class.
pub data Place : Type 0 where
  start dims name : Place

-- The letters of the primitive types.
unfoldable pub is_base : ℕ → Bool
is_base c =
    (c == b'B')
    || (c == b'C')
    || (c == b'D')
    || (c == b'F')
    || (c == b'I')
    || (c == b'J')
    || (c == b'S')
    || (c == b'Z')

-- The arguments: their number, and the text behind the closing parenthesis.
unfoldable pub args_from : List ℕ → Place → ℕ → Option (ℕ × List ℕ)
args_from [] place args = none
args_from (c ∷ p) name args =
    let in_name = args_from p name args in
    let next = args_from p start (args + 1) in if c == b';' then next else in_name
args_from (c ∷ p) start args =
    let in_dims = args_from p dims args in
    let in_name = args_from p name args in
    let next = args_from p start (args + 1) in
    if c == b')'
    then some (args, p)
    else if c == b'['
    then in_dims
    else if c == b'L'
    then in_name
    else if is_base c
    then next
    else none
args_from (c ∷ p) dims args =
    let in_dims = args_from p dims args in
    let in_name = args_from p name args in
    let next = args_from p start (args + 1) in
    if c == b'[' then in_dims else if c == b'L' then in_name else if is_base c then next else none

-- `*ret_kind`
unfoldable pub ret_kind : ℕ → ℕ
ret_kind c = if c == b'V' then b'V' else if (c == b'L') || (c == b'[') then b'A' else b'I'

unfoldable pub with_kind : ℕ → List ℕ → Option (ℕ × ℕ)
with_kind args [] = none
with_kind args (c ∷ p) = some (args, ret_kind c)

unfoldable pub behind_paren : List ℕ → Option (ℕ × ℕ)
behind_paren [] = none
behind_paren (c ∷ p) = if c == b'(' then (args_from p start 0 >>= λ r. with_kind r.0 r.1) else none

-- `jvm_desc_args`: the number of arguments and the kind of the result, or `none` for -1.
unfoldable pub jvm_desc_args : List ℕ → Option (ℕ × ℕ)
jvm_desc_args desc = if ltb (length desc) 3 then none else behind_paren desc
