-- ===== src/Java.antt =====
-- src/commands/java.c: what kind of program a file holds, the HJAR programs and the entries of an archive.
pub mod Hjar
pub mod Zip
pub mod Descriptor
pub mod Jar
mod Tests
use heat_os.Prelude.{
  ℕ, Bool, true, false, List, [], ◌∷◌, ltb, leb, ◌==◌, ◌&&◌, if◌then◌else◌, length,
}

unfoldable pub starts_with : List ℕ → List ℕ → Bool
starts_with [] p = true
starts_with (a ∷ q) [] = false
starts_with (a ∷ q) (b ∷ p) = (a == b) && starts_with q p

-- `java_detect_format`: 1 for an HJAR, 2 for an archive, 3 for a class file.
unfoldable pub java_detect_format : List ℕ → ℕ
java_detect_format p =
    if ltb (length p) 4
    then 0
    else if leb 5 (length p) && starts_with (b'H' ∷ b'J' ∷ b'A' ∷ b'R' ∷ []) p
    then 1
    else if starts_with (b'P' ∷ b'K' ∷ 3 ∷ 4 ∷ []) p
    then 2
    else if starts_with (0xCA ∷ 0xFE ∷ 0xBA ∷ 0xBE ∷ []) p
    then 3
    else 0
