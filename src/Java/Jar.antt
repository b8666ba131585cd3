-- ===== src/Java/Jar.antt =====
-- `java_manifest_main_class` and the choice that `java_run_jar` makes in src/commands/java.c, up to the execution
-- of the class.
use heat_os.Prelude.{
  ℕ, ◌-◌, Bool, true, Option, none, some, List, [], ◌∷◌, ◌++◌, ltb, ◌==◌, ◌||◌, if◌then◌else◌,
  length, take, drop,
}
use heat_os.Java.{starts_with}
use heat_os.Java.Zip.{
  SearchResult, found, missing, outside, running, java_zip_find_entry, java_zip_find_first_class,
  class_suffix,
}

abbrev pub main_class_key : List ℕ
main_class_key = b'M' ∷ b'a' ∷ b'i' ∷ b'n' ∷ b'-' ∷ b'C' ∷ b'l' ∷ b'a' ∷ b's' ∷ b's' ∷ b':' ∷ []

-- The first line, up to a line break or the end.
unfoldable pub line_of : List ℕ → List ℕ
line_of [] = []
line_of (c ∷ p) = let rest = line_of p in if (c == 10) || (c == 13) then [] else c ∷ rest

unfoldable pub skip_blanks : List ℕ → List ℕ
skip_blanks [] = []
skip_blanks (c ∷ p) = let rest = skip_blanks p in if (c == 32) || (c == 9) then rest else c ∷ p

unfoldable pub dots_to_slashes : List ℕ → List ℕ
dots_to_slashes [] = []
dots_to_slashes (c ∷ p) = (if c == b'.' then b'/' else c) ∷ dots_to_slashes p

-- The path in `out_path` for the rest of the line behind the key.
unfoldable pub class_path : ℕ → List ℕ → Option (List ℕ)
class_path out_cap value =
    let name = take (out_cap - 7) (skip_blanks value) in
    if length name == 0 then none else some (dots_to_slashes name ++ class_suffix)

-- The loop over the lines; `fresh` says that a line begins here.
unfoldable pub find_main_class : ℕ → List ℕ → Bool → Option (List ℕ)
find_main_class out_cap [] fresh = none
find_main_class out_cap (c ∷ p) fresh =
    let rest = find_main_class out_cap p ((c == 10) || (c == 13)) in
    if fresh
    then (if starts_with main_class_key (line_of (c ∷ p))
        then class_path out_cap (drop 11 (line_of (c ∷ p)))
        else rest)
    else rest

unfoldable pub java_manifest_main_class : List ℕ → ℕ → Option (List ℕ)
java_manifest_main_class payload out_cap =
    if ltb out_cap 8 then none else find_main_class out_cap payload true

-- What `java_run_jar` comes to before it executes a class: the place of the class, or its message; `unfinished`
-- is a search that reads outside the archive or does not end.
pub data Selection : Type 0 where
  class_at : ℕ → ℕ → Selection
  no_main_entry no_class compressed unfinished : Selection

unfoldable pub selected : Selection → SearchResult → Selection
selected absent (found e) =
    if e.method == 0 then class_at e.payload_off e.payload_len else compressed
selected absent missing = absent
selected absent outside = unfinished
selected absent running = unfinished

abbrev manifest_name : List ℕ
manifest_name =
    b'M' ∷ b'E' ∷ b'T' ∷ b'A' ∷ b'-' ∷ b'I' ∷ b'N' ∷ b'F' ∷ b'/' ∷ b'M' ∷ b'A' ∷ b'N' ∷ b'I' ∷ b'F'
    ∷ b'E' ∷ b'S' ∷ b'T' ∷ b'.' ∷ b'M' ∷ b'F' ∷ []

-- The class by the manifest's name for it, or the first one.
unfoldable pub select_class : ℕ → List ℕ → Option (List ℕ) → Selection
select_class fuel p (some path) = selected no_main_entry (java_zip_find_entry fuel p path)
select_class fuel p none = selected no_class (java_zip_find_first_class fuel p)

unfoldable pub with_manifest : ℕ → List ℕ → SearchResult → Selection
with_manifest fuel p (found e) = select_class fuel p (
    if e.method == 0
    then java_manifest_main_class (take e.payload_len (drop e.payload_off p)) 128
    else none)
with_manifest fuel p missing = select_class fuel p none
with_manifest fuel p outside = unfinished
with_manifest fuel p running = unfinished

unfoldable pub java_run_jar : ℕ → List ℕ → Selection
java_run_jar fuel p = with_manifest fuel p (java_zip_find_entry fuel p manifest_name)
