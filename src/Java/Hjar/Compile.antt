-- ===== src/Java/Hjar/Compile.antt =====
-- Expressions compiled to the opcodes of HJAR programs, and their values.
use Prim.Native.Nat.{max}
use heat_os.Prelude.{
  ℕ, suc, ◌+◌, ◌-◌, ◌^◌, ◌≤◌, ◌<◌, ◌≡◌, refl, ◌∙◌, List, [], ◌∷◌, ◌++◌, ◌==◌, ◌&&◌, if◌then◌else◌,
  arith, length, add32, sub32, mul32, Bool-cases, inl, inr, lt→leb-false, ne→==-false, le→ltb-false,
  le→leb,
}
use heat_os.CString.Digits.{itoa}
use heat_os.Java.{java_detect_format, starts_with}
use heat_os.Java.Hjar.{
  Outcome, ended, trap, returned, divide_by_zero, opcode, operand, go, sign_extend, div32, to_int,
  divide, binary, print_top, is_binary, hjar_step, hjar_run, follow, java_hjar_exec,
}

pub data Expr : Type 0 where
  lit : ℕ → Expr
  plus minus times over : Expr → Expr → Expr

-- The value of an expression, or what stops its evaluation first.
pub data Value : Type 0 where
  value : ℕ → Value
  by_zero overflow : Value

abbrev then_do : Value → (ℕ → Value) → Value
then_do (value v) k = k v
then_do by_zero k = by_zero
then_do overflow k = overflow

abbrev quotient : ℕ → ℕ → Value
quotient a b =
    if b == 0
    then by_zero
    else if (a == 2 ^ 31) && (b == 2 ^ 32 - 1)
    then overflow
    else value (div32 a b)

unfoldable pub eval : Expr → Value
eval (lit b) = value (sign_extend b)
eval (plus e f) = then_do (eval e) (λ a. then_do (eval f) (λ b. value (add32 a b)))
eval (minus e f) = then_do (eval e) (λ a. then_do (eval f) (λ b. value (sub32 a b)))
eval (times e f) = then_do (eval e) (λ a. then_do (eval f) (λ b. value (mul32 a b)))
eval (over e f) = then_do (eval e) (λ a. then_do (eval f) (λ b. quotient a b))

unfoldable pub code : Expr → List ℕ → List ℕ
code (lit b) rest = 0x10 ∷ b ∷ rest
code (plus e f) rest = code e (code f (0x60 ∷ rest))
code (minus e f) rest = code e (code f (0x64 ∷ rest))
code (times e f) rest = code e (code f (0x68 ∷ rest))
code (over e f) rest = code e (code f (0x6C ∷ rest))

-- The room on the stack that an expression needs.
unfoldable pub depth : Expr → ℕ
depth (lit b) = 1
depth (plus e f) = max (depth e) (1 + depth f)
depth (minus e f) = max (depth e) (1 + depth f)
depth (times e f) = max (depth e) (1 + depth f)
depth (over e f) = max (depth e) (1 + depth f)

-- How a run goes on with a value, or ends without one.
abbrev pub after : List ℕ → Value → (ℕ → Outcome) → Outcome
after out (value v) k = k v
after out by_zero k = ended divide_by_zero out
after out overflow k = trap

after_ext :
    (out : List ℕ) (v : Value) (f g : ℕ → Outcome)
    → ((a : ℕ) → f a ≡ g a)
    → after out v f ≡ after out v g
after_ext out (value v) f g h = h v
after_ext out by_zero f g h = refl
after_ext out overflow f g h = refl

after-then_do :
    (out : List ℕ) (v : Value) (f : ℕ → Value) (k : ℕ → Outcome)
    → after out v (λ a. after out (f a) k) ≡ after out (then_do v f) k
after-then_do out (value v) f k = refl
after-then_do out by_zero f k = refl
after-then_do out overflow f k = refl

module _ (out : List ℕ) where
  hjar_step-push :
      (left : ℕ) (s : List ℕ) → length s < 64 → hjar_step 0x10 (suc left) s out ≡ go operand s out
  unfolding hjar_step
  hjar_step-push left s room =
      rw (ne→==-false (suc left) 0 (λ e. omega arith), lt→leb-false 64 (length s) room) refl

  run_push :
      (b : ℕ) (rest s : List ℕ)
      → length s < 64
      → hjar_run (0x10 ∷ b ∷ rest) opcode s out ≡ hjar_run rest opcode (sign_extend b ∷ s) out
  unfolding hjar_run follow
  run_push b rest s room = rw (hjar_step-push (length rest) s room) refl

  -- Two expressions and an opcode that does what `result` says.
  run_binary :
      (op : ℕ) (result : ℕ → ℕ → Value) (e f : Value) (rest s start middle : List ℕ)
      → ((a b : ℕ)
          → hjar_run (op ∷ rest) opcode (b ∷ a ∷ s) out
            ≡ after out (result a b) (λ v. hjar_run rest opcode (v ∷ s) out))
      → hjar_run start opcode s out ≡ after out e (λ a. hjar_run middle opcode (a ∷ s) out)
      → ((a : ℕ)
          → hjar_run middle opcode (a ∷ s) out
            ≡ after out f (λ b. hjar_run (op ∷ rest) opcode (b ∷ a ∷ s) out))
      → hjar_run start opcode s out
        ≡ after out
            (then_do e (λ a. then_do f (λ b. result a b)))
            (λ v. hjar_run rest opcode (v ∷ s) out)
  run_binary op result e f rest s start middle step first second =
      let k : ℕ → Outcome = λ v. hjar_run rest opcode (v ∷ s) out in
      first
      ∙ after_ext out e _ (λ a. after out (then_do f (λ b. result a b)) k)
          (λ a.
            second a
            ∙ (after_ext out f _ (λ b. after out (result a b) k) (λ b. step a b)
                ∙ after-then_do out f (λ b. result a b) k))
      ∙ after-then_do out e (λ a. then_do f (λ b. result a b)) k

  follow-divide :
      (rest s : List ℕ) (a b : ℕ)
      → follow (divide a b s out) (λ mode stack' out'. hjar_run rest mode stack' out')
        ≡ after out (quotient a b) (λ v. hjar_run rest opcode (v ∷ s) out)
  unfolding divide follow
  follow-divide rest s a b = elim (Bool-cases (b == 0)) [
    | inl e ↦ rw e refl
    | inr e ↦ rw e (elim (Bool-cases ((a == 2 ^ 31) && (b == 2 ^ 32 - 1))) [
      | inl extreme ↦ rw extreme refl
      | inr fits ↦ rw fits refl
    ])
  ]

  run_divide :
      (rest s : List ℕ) (a b : ℕ)
      → hjar_run (0x6C ∷ rest) opcode (b ∷ a ∷ s) out
        ≡ after out (quotient a b) (λ v. hjar_run rest opcode (v ∷ s) out)
  unfolding hjar_run hjar_step is_binary binary
  run_divide rest s a b = follow-divide rest s a b

  run_code :
      (e : Expr) (rest s : List ℕ)
      → length s + depth e ≤ 64
      → hjar_run (code e rest) opcode s out
        ≡ after out (eval e) (λ v. hjar_run rest opcode (v ∷ s) out)
  unfolding eval code depth
  run_code (lit b) rest s room = run_push b rest s (omega arith)
  run_code (plus e f) rest s room =
      run_binary 0x60 (λ a b. value (add32 a b)) (eval e) (eval f) rest s _ (code f (0x60 ∷ rest))
        (λ a b. unfold hjar_run hjar_step is_binary binary follow in refl)
        (run_code e (code f (0x60 ∷ rest)) s (omega arith))
        (λ a. run_code f (0x60 ∷ rest) (a ∷ s) (omega arith))
  run_code (minus e f) rest s room =
      run_binary 0x64 (λ a b. value (sub32 a b)) (eval e) (eval f) rest s _ (code f (0x64 ∷ rest))
        (λ a b. unfold hjar_run hjar_step is_binary binary follow in refl)
        (run_code e (code f (0x64 ∷ rest)) s (omega arith))
        (λ a. run_code f (0x64 ∷ rest) (a ∷ s) (omega arith))
  run_code (times e f) rest s room =
      run_binary 0x68 (λ a b. value (mul32 a b)) (eval e) (eval f) rest s _ (code f (0x68 ∷ rest))
        (λ a b. unfold hjar_run hjar_step is_binary binary follow in refl)
        (run_code e (code f (0x68 ∷ rest)) s (omega arith))
        (λ a. run_code f (0x68 ∷ rest) (a ∷ s) (omega arith))
  run_code (over e f) rest s room =
      run_binary 0x6C quotient (eval e) (eval f) rest s _ (code f (0x6C ∷ rest))
        (λ a b. run_divide rest s a b) (run_code e (code f (0x6C ∷ rest)) s (omega arith))
        (λ a. run_code f (0x6C ∷ rest) (a ∷ s) (omega arith))

-- The HJAR file of a program that prints an expression.
unfoldable pub hjar_of : Expr → List ℕ
hjar_of e = b'H' ∷ b'J' ∷ b'A' ∷ b'R' ∷ 1 ∷ code e (0xFE ∷ 0xB1 ∷ [])

accepted :
    (p : List ℕ) → java_hjar_exec (b'H' ∷ b'J' ∷ b'A' ∷ b'R' ∷ 1 ∷ p) ≡ hjar_run p opcode [] []
unfolding java_hjar_exec java_detect_format starts_with
accepted p =
    let n : ℕ = suc (suc (suc (suc (suc (length p))))) in
    rw (le→ltb-false n 5 (omega arith), le→ltb-false n 4 (omega arith), le→leb 5 n (omega arith))
      refl

print_and_return :
    (v : ℕ)
    → hjar_run (0xFE ∷ 0xB1 ∷ []) opcode (v ∷ []) []
      ≡ ended returned (itoa (to_int v) 10 ++ 10 ∷ [])
unfolding hjar_run hjar_step is_binary print_top follow
print_and_return v = refl

-- `java_hjar_exec` on the compiled form of an expression that needs at most 64 places of the stack ends as the
-- evaluation says: with the value printed in decimal and a line break, with the message of a division by zero,
-- or with the processor's trap at the quotient of the least `int32_t` by -1.
pub java_hjar_exec-eval :
    (e : Expr)
    → depth e ≤ 64
    → java_hjar_exec (hjar_of e)
      ≡ after [] (eval e) (λ v. ended returned (itoa (to_int v) 10 ++ 10 ∷ []))
unfolding hjar_of
java_hjar_exec-eval e room =
    accepted (code e (0xFE ∷ 0xB1 ∷ []))
    ∙ run_code [] e (0xFE ∷ 0xB1 ∷ []) [] (omega arith)
    ∙ after_ext [] (eval e) _ _ (λ v. print_and_return v)
