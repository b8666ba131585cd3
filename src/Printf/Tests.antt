-- ===== src/Printf/Tests.antt =====
-- Runs of src/kernel/printf.c.
use heat_os.Prelude.{ℕ, ◌≡◌, refl, some, none, List, [], ◌∷◌, arith, negsuc}
use heat_os.Keyboard.{entry}
use heat_os.Printf.{
  int, word, kvprintf, directive, emit_int, emit_u64_base, put_digits, digit_of, emit_word, is_int,
  is_word, kvsnprintf,
}
use heat_os.Printf.Bounded.{printed, kvsnprintf-printed}

-- `kprintf("a%d%%%X", -42, 255)`
mixed :
    kvprintf (b'a' ∷ b'%' ∷ b'd' ∷ b'%' ∷ b'%' ∷ b'%' ∷ b'X' ∷ []) (int (negsuc 41) ∷ word 255 ∷ [])
    ≡ some (b'a' ∷ b'-' ∷ b'4' ∷ b'2' ∷ b'%' ∷ b'F' ∷ b'F' ∷ [])
unfolding kvprintf directive emit_int emit_u64_base put_digits digit_of emit_word is_int is_word
mixed = refl

abbrev hello : List ℕ
hello = b'h' ∷ b'e' ∷ b'l' ∷ b'l' ∷ b'o' ∷ []

hello_out : kvprintf hello [] ≡ some hello
unfolding kvprintf
hello_out = refl

kvsnprintf-printed_example :
    (kvsnprintf (some (λ i. 7)) 4 hello [] ≡ some (5, some (printed (λ i. 7) 4 hello)))
    × (kvsnprintf none 4 hello [] ≡ some (0, none))
kvsnprintf-printed_example = kvsnprintf-printed (λ i. 7) 4 hello [] hello hello_out (omega arith)

-- "hel" and the NUL in four bytes, and the NUL alone in one.
four_bytes : printed (λ i. 7) 4 hello 2 ≡ b'l'
unfolding printed entry
four_bytes = refl

one_byte : (printed (λ i. 7) 1 hello 0 ≡ 0) × (printed (λ i. 7) 1 hello 1 ≡ 7)
unfolding printed
one_byte = (refl, refl)
