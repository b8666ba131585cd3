-- ===== src/Printf.antt =====
-- src/kernel/printf.c: the directives of `kvprintf`, and `kvsnprintf` into a buffer.
pub mod Bounded
mod Tests
use heat_os.Prelude.{
  ℕ, zero, suc, ◌+◌, ◌-◌, ◌*◌, ◌/◌, ◌%◌, ◌^◌, Bool, true, false, Option, none, some, List, [], ◌∷◌,
  ◌++◌, ltb, leb, ◌==◌, ◌||◌, ◌&&◌, if◌then◌else◌, update, length, add32, ◌>>=◌, ℤ, pos, negsuc,
}

-- One variable argument: an `int`, an `unsigned int` or pointer value, or a string, which may be null.
pub data Arg : Type 0 where
  int : ℤ → Arg
  word : ℕ → Arg
  str : Option (List ℕ) → Arg

unfoldable pub emit_str : Option (List ℕ) → List ℕ
emit_str none = b'(' ∷ b'n' ∷ b'u' ∷ b'l' ∷ b'l' ∷ b')' ∷ []
emit_str (some s) = s

unfoldable pub digit_of : Bool → ℕ → ℕ
digit_of upper digit =
    if ltb digit 10 then b'0' + digit else (if upper then b'A' else b'a') + (digit - 10)

-- The digits that are put into `tmp`, lowest first, in front of those that are there already.
unfoldable pub put_digits : ℕ → ℕ → ℕ → Bool → List ℕ → List ℕ
put_digits zero value base upper tmp = tmp
put_digits (suc room) value base upper tmp =
    let tmp' = digit_of upper (value % base) ∷ tmp in
    let more = put_digits room (value / base) base upper tmp' in
    if value / base == 0 then tmp' else more

unfoldable pub emit_u64_base : ℕ → ℕ → Bool → List ℕ
emit_u64_base value base upper =
    if ltb base 2 || ltb 16 base then [] else put_digits 32 value base upper []

unfoldable pub emit_int : ℤ → List ℕ
emit_int (pos v) = emit_u64_base v 10 false
emit_int (negsuc v) = b'-' ∷ emit_u64_base (v + 1) 10 false

-- `(char)c`
unfoldable pub char_of : ℤ → ℕ
char_of (pos v) = v % 256
char_of (negsuc v) = 255 - v % 256

unfoldable pub emit_word : ℕ → ℕ → List ℕ
emit_word d v =
    if d == b'u'
    then emit_u64_base v 10 false
    else if d == b'x'
    then emit_u64_base v 16 false
    else if d == b'X'
    then emit_u64_base v 16 true
    else b'0' ∷ b'x' ∷ emit_u64_base v 16 false

unfoldable pub is_word : ℕ → Bool
is_word d = (d == b'u') || (d == b'x') || (d == b'X') || (d == b'p')

unfoldable pub is_int : ℕ → Bool
is_int d = (d == b'd') || (d == b'i')

-- What the directive `%d` puts out and the arguments behind it. `none` is a missing argument, or one of
-- another type, where C leaves the behaviour undefined.
unfoldable pub directive : ℕ → List Arg → Option (List ℕ × List Arg)
directive d [] =
    if is_int d || is_word d || (d == b'c') || (d == b's')
    then none
    else if d == b'%'
    then some (b'%' ∷ [], [])
    else some (b'%' ∷ d ∷ [], [])
directive d (arg ∷ args) =
    if is_int d
    then elim arg [ int v ↦ some (emit_int v, args) | word v ↦ none | str s ↦ none ]
    else if is_word d
    then elim arg [ int v ↦ none | word v ↦ some (emit_word d v, args) | str s ↦ none ]
    else if d == b'c'
    then elim arg [ int v ↦ some (char_of v ∷ [], args) | word v ↦ none | str s ↦ none ]
    else if d == b's'
    then elim arg [ int v ↦ none | word v ↦ none | str s ↦ some (emit_str s, args) ]
    else if d == b'%'
    then some (b'%' ∷ [], arg ∷ args)
    else some (b'%' ∷ d ∷ [], arg ∷ args)

unfoldable pub prefix : List ℕ → Option (List ℕ) → Option (List ℕ)
prefix out none = none
prefix out (some rest) = some (out ++ rest)

-- The characters that `kvprintf` puts out; its result is their number.
unfoldable pub kvprintf : List ℕ → List Arg → Option (List ℕ)
unfolding prefix
kvprintf [] args = some []
kvprintf (c ∷ []) args = if c == b'%' then some [] else some (c ∷ [])
kvprintf (c ∷ d ∷ fmt) args = elim (c == b'%') [
  | true ↦ elim (directive d args) [
    | none ↦ none
    | some (out, args') ↦ prefix out (kvprintf fmt args')
  ]
  | false ↦ prefix (c ∷ []) (kvprintf (d ∷ fmt) args)
]

-- `snprintf_ctx_t`
pub record Context : Type 0 where
  pub buf : ℕ → ℕ
  pub cap : ℕ
  pub at : ℕ

unfoldable pub snprintf_putc : ℕ → Context → Context
snprintf_putc c ctx = record ctx {
  buf = if ltb 0 ctx.cap && ltb (add32 ctx.at 1) ctx.cap then update ctx.buf ctx.at c else ctx.buf;
  at = add32 ctx.at 1;
}

unfoldable pub put_all : List ℕ → Context → Context
put_all [] ctx = ctx
put_all (c ∷ out) ctx = put_all out (snprintf_putc c ctx)

-- The NUL at the end, where there is room for anything.
unfoldable pub terminate : Context → ℕ → ℕ
terminate ctx =
    if ltb 0 ctx.cap
    then update ctx.buf (if ltb ctx.at ctx.cap then ctx.at else ctx.cap - 1) 0
    else ctx.buf

-- The buffer behind `kvsnprintf` when `kvprintf` puts out the characters `out`.
unfoldable pub filled : (ℕ → ℕ) → ℕ → List ℕ → ℕ → ℕ
filled buf cap out = terminate (put_all out (record { buf = buf; cap = cap; at = 0 }))

-- `kvsnprintf` on a buffer, `none` for a null pointer: the result and the buffer after it. There is no result
-- where `kvprintf` has none.
unfoldable pub kvsnprintf : Option (ℕ → ℕ) → ℕ → List ℕ → List Arg → Option (ℕ × Option (ℕ → ℕ))
kvsnprintf none cap fmt args =
    if ltb 0 cap then some (0, none) else (kvprintf fmt args >>= λ out. some (length out, none))
kvsnprintf (some buf) cap fmt args =
    kvprintf fmt args >>= λ out. some (length out, some (filled buf cap out))
