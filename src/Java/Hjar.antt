-- ===== src/Java/Hjar.antt =====
-- `java_hjar_exec` of src/commands/java.c. An `int32_t` is its 32-bit pattern, and the code from `pc` on is a list.
pub mod Compile
use heat_os.Prelude.{
  ℕ, zero, suc, ◌+◌, ◌-◌, ◌/◌, ◌^◌, Bool, true, false, List, [], ◌∷◌, ◌++◌, ltb, leb, ◌==◌, ◌&&◌,
  ◌||◌, if◌then◌else◌, length, drop, add32, sub32, mul32, ℤ, pos, negsuc,
}
use heat_os.CString.Digits.{itoa}
use heat_os.Java.{java_detect_format}

-- How a program ends; every way but the first two has its message.
pub data Ending : Type 0 where
  returned invalid stack_error stack_underflow divide_by_zero truncated_literal literal_out_of_range
        print_underflow no_return :
      Ending
  unknown_opcode : ℕ → Ending

-- The end, with the characters printed; `trap` is the processor's exception at a quotient that is no `int32_t`.
pub data Outcome : Type 0 where
  ended : Ending → List ℕ → Outcome
  trap : Outcome

-- What the next byte is: an opcode, the operand of a push, the length of a literal, or a character of a literal
-- in front of so many others.
pub data Mode : Type 0 where
  opcode operand count : Mode
  literal : ℕ → Mode

unfoldable pub sign_extend : ℕ → ℕ
sign_extend b = if ltb b 128 then b else 2 ^ 32 - 256 + b

unfoldable pub magnitude : ℕ → ℕ
magnitude w = if ltb w (2 ^ 31) then w else 2 ^ 32 - w

-- The quotient of C, towards 0.
unfoldable pub div32 : ℕ → ℕ → ℕ
div32 a b =
    let q = magnitude a / magnitude b in
    if ltb a (2 ^ 31)
    then (if ltb b (2 ^ 31) then q else sub32 0 q)
    else if ltb b (2 ^ 31)
    then sub32 0 q
    else q

unfoldable pub to_int : ℕ → ℤ
to_int w = if ltb w (2 ^ 31) then pos w else negsuc (2 ^ 32 - w - 1)

-- What an opcode does: end the program, or go on with a stack, the top first, and what is printed.
pub data Step : Type 0 where
  stop : Outcome → Step
  go : Mode → List ℕ → List ℕ → Step

unfoldable pub divide : ℕ → ℕ → List ℕ → List ℕ → Step
divide a b stack out =
    if b == 0
    then stop (ended divide_by_zero out)
    else if (a == 2 ^ 31) && (b == 2 ^ 32 - 1)
    then stop trap
    else go opcode (div32 a b ∷ stack) out

-- The opcodes 0x60, 0x64, 0x68 and 0x6C.
unfoldable pub binary : ℕ → List ℕ → List ℕ → Step
binary op [] out = stop (ended stack_underflow out)
binary op (b ∷ []) out = stop (ended stack_underflow out)
binary op (b ∷ a ∷ stack) out =
    if op == 0x60
    then go opcode (add32 a b ∷ stack) out
    else if op == 0x64
    then go opcode (sub32 a b ∷ stack) out
    else if op == 0x68
    then go opcode (mul32 a b ∷ stack) out
    else divide a b stack out

unfoldable pub print_top : List ℕ → List ℕ → Step
print_top [] out = stop (ended print_underflow out)
print_top (v ∷ stack) out = go opcode stack (out ++ itoa (to_int v) 10)

unfoldable pub is_binary : ℕ → Bool
is_binary op = (op == 0x60) || (op == 0x64) || (op == 0x68) || (op == 0x6C)

-- The opcode `op` with `left` bytes behind it.
unfoldable pub hjar_step : ℕ → ℕ → List ℕ → List ℕ → Step
hjar_step op left stack out =
    if op == 0x10
    then (if (left == 0) || leb 64 (length stack)
        then stop (ended stack_error out)
        else go operand stack out)
    else if is_binary op
    then binary op stack out
    else if op == 0xFC
    then (if left == 0 then stop (ended truncated_literal out) else go count stack out)
    else if op == 0xFE
    then print_top stack out
    else if op == 0xB1
    then stop (ended returned (out ++ 10 ∷ []))
    else stop (ended (unknown_opcode op) out)

-- So many characters of a literal are to come.
unfoldable pub mode_of : ℕ → Mode
mode_of zero = opcode
mode_of (suc n) = literal n

unfoldable pub follow : Step → (Mode → List ℕ → List ℕ → Outcome) → Outcome
follow (stop outcome) run = outcome
follow (go mode stack out) run = run mode stack out

-- The loop of `java_hjar_exec`.
unfoldable pub hjar_run : List ℕ → Mode → List ℕ → List ℕ → Outcome
hjar_run [] mode stack out = ended no_return out
hjar_run (op ∷ rest) opcode stack out =
    follow (hjar_step op (length rest) stack out)
      (λ mode stack' out'. hjar_run rest mode stack' out')
hjar_run (v ∷ rest) operand stack out = hjar_run rest opcode (sign_extend v ∷ stack) out
hjar_run (n ∷ rest) count stack out =
    let run = hjar_run rest (mode_of n) stack out in
    if ltb (length rest) n then ended literal_out_of_range out else run
hjar_run (c ∷ rest) (literal n) stack out = hjar_run rest (mode_of n) stack (out ++ c ∷ [])

unfoldable pub java_hjar_exec : List ℕ → Outcome
java_hjar_exec p =
    if ltb (length p) 5
    then ended invalid []
    else if java_detect_format p == 1
    then hjar_run (drop 5 p) opcode [] []
    else ended invalid []
