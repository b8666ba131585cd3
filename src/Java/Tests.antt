-- ===== src/Java/Tests.antt =====
-- Runs of src/commands/java.c on small files.
use heat_os.Prelude.{
  ℕ, ◌+◌, ◌^◌, ◌≤◌, ◌≡◌, refl, sym, ap, ◌∙◌, Bool, true, Option, none, some, List, [], ◌∷◌, ◌++◌,
  arith, ltb, ltb→lt, passes, passes-at, byte, lt→ltb, ℤ, pos,
}
use native.Mathlib.Decide.{dec_lt}
use heat_os.CString.Digits.{itoa}
use heat_os.Java.Hjar.{java_hjar_exec, to_int, ended, returned}
use heat_os.Java.Hjar.Compile.{
  Expr, lit, plus, times, over, eval, depth, hjar_of, after, java_hjar_exec-eval,
}
use heat_os.Java.Zip.{
  Entry, java_zip_next_entry, read_entry, rd_le16, rd_le32, past, java_zip_find_entry,
  java_zip_find_first_class, running, is_named,
}
use heat_os.Java.{starts_with}
use heat_os.Java.Descriptor.{jvm_desc_args, behind_paren, args_from, with_kind, ret_kind, is_base}
use heat_os.Java.Jar.{
  java_manifest_main_class, find_main_class, line_of, class_path, skip_blanks, dots_to_slashes,
  main_class_key,
}
use heat_os.Java.Zip.{class_suffix}
use heat_os.Java.Zip.Search.{HasSizes, IsOver, java_zip_find_entry-IsOver}
use heat_os.Java.Zip.Loop.{header, java_zip_find_entry-header}

-- (7 + 5) * 3 / 0xFE, where 0xFE is -2.
abbrev expr : Expr
expr = over (times (plus (lit 7) (lit 5)) (lit 3)) (lit 0xFE)

java_hjar_exec-eval_example :
    java_hjar_exec (hjar_of expr)
    ≡ after [] (eval expr) (λ v. ended returned (itoa (to_int v) 10 ++ 10 ∷ []))
java_hjar_exec-eval_example = java_hjar_exec-eval expr (unfold depth in omega arith)

java_zip_find_entry-header_example :
    (java_zip_find_entry 100 (header ++ 65 ∷ []) (b'A' ∷ []) ≡ running)
    × (java_zip_find_first_class 100 (header ++ 65 ∷ []) ≡ running)
java_zip_find_entry-header_example =
    java_zip_find_entry-header 100 (65 ∷ []) (b'A' ∷ []) (omega arith)

-- An archive with the file "a" of one byte.
abbrev archive : List ℕ
archive =
    b'P' ∷ b'K' ∷ 3 ∷ 4 ∷ 20 ∷ 0 ∷ 0 ∷ 0 ∷ 0 ∷ 0 ∷ 0 ∷ 0 ∷ 0 ∷ 0 ∷ 0 ∷ 0 ∷ 0 ∷ 0 ∷ 1 ∷ 0 ∷ 0 ∷ 0 ∷ 1
    ∷ 0 ∷ 0 ∷ 0 ∷ 1 ∷ 0 ∷ 0 ∷ 0 ∷ b'a' ∷ 7 ∷ []

abbrev states_size : Option (Option (Entry × ℤ)) → Bool
states_size none = true
states_size (some none) = true
states_size (some (some r)) = ltb r.0.payload_len (2 ^ 30)

archive_sizes : passes (λ off. states_size (java_zip_next_entry archive (pos off))) 3 ≡ true
unfolding passes java_zip_next_entry read_entry rd_le32 rd_le16 past to_int byte
archive_sizes = refl

archive_end : (off : ℕ) → 3 ≤ off → java_zip_next_entry archive (pos off) ≡ some none
unfolding java_zip_next_entry
archive_end off h = rw (lt→ltb 32 (off + 30) (omega arith)) refl

archive-HasSizes : HasSizes archive
archive-HasSizes off r shown = elim (dec_lt off 3) [
  | yes early ↦ ltb→lt _ _ (
      ap states_size (sym shown)
      ∙ passes-at (λ off. states_size (java_zip_next_entry archive (pos off))) 3 archive_sizes off
          early)
  | no late ↦ let e = sym (archive_end off (omega arith)) ∙ shown in absurd (cc e)
]

java_zip_find_entry-IsOver_example :
    IsOver (is_named archive (b'a' ∷ [])) 32 (java_zip_find_entry 33 archive (b'a' ∷ []))
java_zip_find_entry-IsOver_example =
    java_zip_find_entry-IsOver archive (b'a' ∷ []) (omega arith) archive-HasSizes

-- `([Ljava/lang/String;I)V`, with a short class name.
descriptor :
    jvm_desc_args (b'(' ∷ b'[' ∷ b'L' ∷ b'S' ∷ b';' ∷ b'I' ∷ b')' ∷ b'V' ∷ []) ≡ some (2, b'V')
unfolding jvm_desc_args behind_paren args_from with_kind ret_kind is_base
descriptor = refl

manifest :
    java_manifest_main_class
      (b'A' ∷ b':' ∷ b'1' ∷ 13 ∷ 10 ∷ main_class_key ++ (b' ' ∷ b'p' ∷ b'.' ∷ b'Q' ∷ 13 ∷ 10 ∷ []))
      128
    ≡ some (b'p' ∷ b'/' ∷ b'Q' ∷ class_suffix)
unfolding starts_with java_manifest_main_class find_main_class line_of class_path skip_blanks
    dots_to_slashes
manifest = refl
