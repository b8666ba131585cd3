-- ===== src/Java/Zip/Loop.antt =====
-- A search of src/commands/java.c that never ends.
use heat_os.Prelude.{
  ℕ, zero, suc, ◌≤◌, ◌<◌, ◌≡◌, refl, Bool, false, some, List, [], ◌∷◌, ◌++◌, arith, length,
  le→ltb-false, length-append, pos, byte, ne→==-false,
}
use heat_os.Java.Hjar.{to_int}
use heat_os.Java.Zip.{
  rd_le16, rd_le32, Entry, past, read_entry, java_zip_next_entry, running, consider, search_from,
  java_zip_find_entry, java_zip_find_first_class, is_named, is_class,
}

-- A local file header with no name that states the size 2^32 - 30.
abbrev pub header : List ℕ
header =
    b'P' ∷ b'K' ∷ 3 ∷ 4 ∷ 20 ∷ 0 ∷ 0 ∷ 0 ∷ 0 ∷ 0 ∷ 0 ∷ 0 ∷ 0 ∷ 0 ∷ 0 ∷ 0 ∷ 0 ∷ 0 ∷ 0xE2 ∷ 0xFF
    ∷ 0xFF ∷ 0xFF ∷ 0 ∷ 0 ∷ 0 ∷ 0 ∷ 0 ∷ 0 ∷ 0 ∷ 0 ∷ []

abbrev header_entry : Entry
header_entry = record {
  name_off = 30;
  name_len = 0;
  payload_off = 30;
  payload_len = 0xFFFFFFE2;
  method = 0;
}

next_entry-header :
    (rest : List ℕ)
    → java_zip_next_entry (header ++ rest) (pos 0) ≡ some (some (header_entry, pos 0))
unfolding java_zip_next_entry rd_le32 rd_le16 byte read_entry past to_int
next_entry-header rest =
    let n : ℕ = length (header ++ rest) in
    let long : 30 ≤ n = let e = length-append header rest in omega arith in
    rw (le→ltb-false n 30 long, le→ltb-false n 0 (omega arith)) refl

-- The step from the header back to itself.
search_from-header :
    (fuel : ℕ) (rest : List ℕ) (wanted : Entry → Bool)
    → ((e : Entry) → e.name_len ≡ 0 → wanted e ≡ false)
    → search_from fuel wanted (header ++ rest) (pos 0) ≡ running
unfolding search_from consider
search_from-header zero rest wanted named = refl
search_from-header (suc fuel) rest wanted named =
    rw (next_entry-header rest, named header_entry refl) (search_from-header fuel rest wanted named)

-- In a file that begins with a header of an empty name and a stated size of 2^32 - 30, the search for an entry
-- with a name of at least one character, and the search for the first class, are still running after any number
-- of steps, whatever follows the header.
pub java_zip_find_entry-header :
    (fuel : ℕ) (rest target : List ℕ)
    → 0 < length target
    → (java_zip_find_entry fuel (header ++ rest) target ≡ running)
      × (java_zip_find_first_class fuel (header ++ rest) ≡ running)
unfolding java_zip_find_entry java_zip_find_first_class
java_zip_find_entry-header fuel rest target some_char = (
  search_from-header fuel rest (is_named (header ++ rest) target) (λ e none_named.
      unfold is_named in rw (none_named, ne→==-false 0 (length target) (λ z. omega arith)) refl),
  search_from-header fuel rest (is_class (header ++ rest))
      (λ e none_named. unfold is_class in rw none_named refl),
)
