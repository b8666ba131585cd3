-- ===== src/Java/Zip.antt =====
-- The archives of src/commands/java.c. An `int` offset is an integer: what is read before the start or past the end
-- of the archive is `none`.
pub mod Search
pub mod Loop
use Prim.Native.Nat.{bit_and}
use heat_os.Prelude.{
  ℕ, zero, suc, ◌+◌, ◌-◌, ◌*◌, Bool, true, false, Option, none, some, List, [], ◌∷◌, ltb, leb, ◌==◌,
  ◌&&◌, ◌||◌, not, if◌then◌else◌, length, drop, add32, ℤ, pos, negsuc, ◌>>=◌, byte,
}
use heat_os.Java.{starts_with}
use heat_os.Java.Hjar.{to_int}

unfoldable pub rd_le16 : List ℕ → ℕ → Option ℕ
rd_le16 p at = do lo ← byte p at; hi ← byte p (at + 1); some (lo + hi * 256)

unfoldable pub rd_le32 : List ℕ → ℕ → Option ℕ
rd_le32 p at = do lo ← rd_le16 p at; hi ← rd_le16 p (at + 2); some (lo + hi * 65536)

-- What `java_zip_next_entry` hands out: the name and the payload, as places in the archive.
pub record Entry : Type 0 where
  pub name_off : ℕ
  pub name_len : ℕ
  pub payload_off : ℕ
  pub payload_len : ℕ
  pub method : ℕ

-- `n > size` on an `int`.
unfoldable pub past : ℕ → ℤ → Bool
past size (pos n) = ltb size n
past size (negsuc n) = false

-- The fields of a local file header at `off`: the entry and the offset behind it, or `none` for a refusal.
unfoldable pub read_entry : List ℕ → ℕ → Option (Option (Entry × ℤ))
read_entry p off = do
  flags ← rd_le16 p (off + 6)
  method ← rd_le16 p (off + 8)
  comp_size ← rd_le32 p (off + 18)
  name_len ← rd_le16 p (off + 26)
  extra_len ← rd_le16 p (off + 28)
  let name_off = off + 30 in
      let data_off = name_off + name_len + extra_len in
      let next = to_int (add32 data_off comp_size) in
      if ltb (length p) (name_off + name_len) || ltb (length p) data_off || past (length p) next
      then some none
      else if not (bit_and flags 8 == 0)
      then some none
      else some (
          some (
            record {
              name_off = name_off;
              name_len = name_len;
              payload_off = data_off;
              payload_len = comp_size;
              method = method;
            },
            next,
          ))

-- `java_zip_next_entry`; the sum of two `int`s wraps.
unfoldable pub java_zip_next_entry : List ℕ → ℤ → Option (Option (Entry × ℤ))
java_zip_next_entry p (negsuc n) = if ltb (length p + n + 1) 30 then some none else none
java_zip_next_entry p (pos off) =
    if ltb (length p) (off + 30)
    then some none
    else (rd_le32 p off >>= λ sig. if sig == 0x04034B50 then read_entry p off else some none)

-- What `java_zip_find_entry` comes to; `running` means that the fuel ran out.
pub data SearchResult : Type 0 where
  found : Entry → SearchResult
  missing outside running : SearchResult

unfoldable pub is_named : List ℕ → List ℕ → Entry → Bool
is_named p target e = (e.name_len == length target) && starts_with target (drop e.name_off p)

-- What the search does with the next entry.
unfoldable pub consider :
    (Entry → Bool) → (ℤ → SearchResult) → Option (Option (Entry × ℤ)) → SearchResult
consider wanted more none = outside
consider wanted more (some none) = missing
consider wanted more (some (some (e, next))) = if wanted e then found e else more next

-- The loop of `java_zip_find_entry` and of `java_zip_find_first_class`, for the first entry that is wanted.
unfoldable pub search_from : ℕ → (Entry → Bool) → List ℕ → ℤ → SearchResult
search_from zero wanted p off = running
search_from (suc fuel) wanted p off =
    consider wanted (λ next. search_from fuel wanted p next) (java_zip_next_entry p off)

unfoldable pub java_zip_find_entry : ℕ → List ℕ → List ℕ → SearchResult
java_zip_find_entry fuel p target = search_from fuel (is_named p target) p (pos 0)

-- `ends_with_bytes(name, name_len, ".class")`
abbrev pub class_suffix : List ℕ
class_suffix = b'.' ∷ b'c' ∷ b'l' ∷ b'a' ∷ b's' ∷ b's' ∷ []

unfoldable pub is_class : List ℕ → Entry → Bool
is_class p e = leb 6 e.name_len && starts_with class_suffix (drop (e.name_off + (e.name_len - 6)) p)

unfoldable pub java_zip_find_first_class : ℕ → List ℕ → SearchResult
java_zip_find_first_class fuel p = search_from fuel (is_class p) p (pos 0)
