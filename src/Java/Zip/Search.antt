-- ===== src/Java/Zip/Search.antt =====
-- The search of src/commands/java.c in an archive comes to an end where every stated size is a true one.
use Prim.Native.Nat.{bit_and}
use heat_os.Prelude.{
  ℕ, zero, suc, ◌+◌, ◌^◌, ◌≤◌, ◌<◌, ◌≡◌, refl, ap, subst, ◌∙◌, Bool, true, false, Option, none,
  some, List, ltb, ◌==◌, ◌||◌, not, arith, length, ltb-false, lt→ltb, add32, ℤ, pos, byte, Gives,
  Any, bind-Gives, if-Gives, byte-Gives, Bool-cases, inl, inr, or-false,
}
use heat_os.Java.Hjar.{to_int}
use heat_os.Java.Zip.{
  rd_le16, rd_le32, Entry, past, read_entry, java_zip_next_entry, SearchResult, found, missing,
  outside, running, consider, search_from, java_zip_find_entry, is_named,
}

rd_le16-Gives : (p : List ℕ) (at : ℕ) → at + 1 < length p → Gives Any (rd_le16 p at)
unfolding rd_le16
rd_le16-Gives p at h =
    bind-Gives Any Any (byte p at) _ (byte-Gives p at (omega arith))
      (λ lo u. bind-Gives Any Any (byte p (at + 1)) _ (byte-Gives p (at + 1) h) (λ hi v. tt))

rd_le32-Gives : (p : List ℕ) (at : ℕ) → at + 3 < length p → Gives Any (rd_le32 p at)
unfolding rd_le32
rd_le32-Gives p at h =
    bind-Gives Any Any (rd_le16 p at) _ (rd_le16-Gives p at (omega arith)) (λ lo u.
      bind-Gives Any Any (rd_le16 p (at + 2)) _ (rd_le16-Gives p (at + 2) (omega arith))
        (λ hi v. tt))

-- An entry with a payload inside the archive, and the next offset at its end, behind this one.
abbrev IsEntry : ℕ → ℕ → Entry × ℤ → Type 0
IsEntry size off (e, next) =
    (n : ℕ) × (next ≡ pos n)
    × (off < n)
    × (n ≤ size)
    × (e.payload_off + e.payload_len ≡ n)
    × (e.name_off + e.name_len ≤ size)

abbrev Progress : ℕ → ℕ → Option (Entry × ℤ) → Type 0
Progress size off none = Unit
Progress size off (some r) = r.0.payload_len < 2 ^ 30 → IsEntry size off r

to_int_small : (n : ℕ) → n < 2 ^ 31 → to_int n ≡ pos n
unfolding to_int
to_int_small n h = rw (lt→ltb n (2 ^ 31) h) refl

past-pos : (size n : ℕ) (k : ℤ) → k ≡ pos n → past size k ≡ false → n ≤ size
unfolding past
past-pos size n k e h = ltb-false size n (subst (λ j. past size j ≡ false) e h)

module _ (p : List ℕ) (small : length p < 2 ^ 30) where
  read_entry-Progress :
      (off : ℕ) → off + 30 ≤ length p → Gives (Progress (length p) off) (read_entry p off)
  unfolding read_entry
  read_entry-Progress off h =
      let P : Option (Entry × ℤ) → Type 0 = Progress (length p) off in
      bind-Gives P Any (rd_le16 p (off + 6)) _ (rd_le16-Gives p (off + 6) (omega arith)) (λ flags a.
        bind-Gives P Any (rd_le16 p (off + 8)) _ (rd_le16-Gives p (off + 8) (omega arith))
          (λ method b.
            bind-Gives P Any (rd_le32 p (off + 18)) _ (rd_le32-Gives p (off + 18) (omega arith))
              (λ comp_size c.
                bind-Gives P Any (rd_le16 p (off + 26)) _ (rd_le16-Gives p (off + 26) (omega arith))
                  (λ name_len d.
                    bind-Gives P Any (rd_le16 p (off + 28)) _
                      (rd_le16-Gives p (off + 28) (omega arith))
                      (λ extra_len e.
                        if-Gives P
                          (ltb (length p) (off + 30 + name_len)
                            || ltb (length p) (off + 30 + name_len + extra_len)
                            || past (length p)
                                (to_int (add32 (off + 30 + name_len + extra_len) comp_size)))
                          _ _ (λ bad. tt)
                          (λ good.
                            if-Gives P (not (bit_and flags 8 == 0)) _ _ (λ streamed. tt)
                              (λ stored. λ sized.
                                let parts =
                                  or-false
                                    (ltb (length p) (off + 30 + name_len)
                                      || ltb (length p) (off + 30 + name_len + extra_len))
                                    (past (length p)
                                      (to_int (add32 (off + 30 + name_len + extra_len) comp_size)))
                                    good in
                                let offs =
                                  or-false (ltb (length p) (off + 30 + name_len))
                                    (ltb (length p) (off + 30 + name_len + extra_len)) parts.0 in
                                let name_in = ltb-false _ _ offs.0 in
                                let data_in = ltb-false _ _ offs.1 in
                                let whole : add32 (off + 30 + name_len + extra_len) comp_size
                                    ≡ off + 30 + name_len + extra_len + comp_size =
                                  omega arith in
                                let total = off + 30 + name_len + extra_len + comp_size in
                                let next : to_int
                                      (add32 (off + 30 + name_len + extra_len) comp_size)
                                    ≡ pos total =
                                  ap to_int whole ∙ to_int_small total (omega arith) in
                                (
                                  total,
                                  next,
                                  omega arith,
                                  past-pos (length p) total _ next parts.1,
                                  refl,
                                  name_in,
                                ))))))))

  next_entry-Progress :
      (off : ℕ) → off ≤ length p → Gives (Progress (length p) off) (java_zip_next_entry p (pos off))
  unfolding java_zip_next_entry
  next_entry-Progress off h =
      let P : Option (Entry × ℤ) → Type 0 = Progress (length p) off in
      if-Gives P (ltb (length p) (off + 30)) _ _ (λ short. tt)
        (λ long.
          let header = ltb-false _ _ long in
          bind-Gives P Any (rd_le32 p off) _ (rd_le32-Gives p off (omega arith)) (λ sig u.
            if-Gives P (sig == 0x04034B50) _ _ (λ good. read_entry-Progress off header)
              (λ bad. tt)))

-- Every entry that the archive shows at some offset states a size under 1 GiB.
abbrev pub HasSizes : List ℕ → Type 0
HasSizes p =
    (off : ℕ) (r : Entry × ℤ)
    → java_zip_next_entry p (pos off) ≡ some (some r)
    → r.0.payload_len < 2 ^ 30

-- A search that is over: what it found is wanted, and its name and its payload are inside the archive.
abbrev pub IsOver : (Entry → Bool) → ℕ → SearchResult → Type 0
IsOver wanted size (found e) =
    (wanted e ≡ true) × (e.name_off + e.name_len ≤ size) × (e.payload_off + e.payload_len ≤ size)
IsOver wanted size missing = Unit
IsOver wanted size outside = ⊥
IsOver wanted size running = ⊥

module _ (p : List ℕ) (wanted : Entry → Bool) (small : length p < 2 ^ 30) (sizes : HasSizes p) where
  consider-IsOver :
      (off : ℕ) (more : ℤ → SearchResult) (m : Option (Option (Entry × ℤ)))
      → ((r : Entry × ℤ) → m ≡ some (some r) → r.0.payload_len < 2 ^ 30)
      → Gives (Progress (length p) off) m
      → ((n : ℕ) → off < n → n ≤ length p → IsOver wanted (length p) (more (pos n)))
      → IsOver wanted (length p) (consider wanted more m)
  unfolding consider
  consider-IsOver off more none sized h next = elim h [ ]
  consider-IsOver off more (some none) sized h next = tt
  consider-IsOver off more (some (some (e, at))) sized h next =
      let entry = h (sized (e, at) refl) in
      let goal : SearchResult → Type 0 = IsOver wanted (length p) in
      let end = entry.4 in
      elim (Bool-cases (wanted e)) [
        | inl yes_wanted ↦ rw yes_wanted (yes_wanted, entry.5, omega arith)
        | inr other ↦ rw (other, entry.1) (next entry.0 entry.2 entry.3)
      ]

  search_from-IsOver :
      (fuel off : ℕ)
      → off ≤ length p
      → length p < off + fuel
      → IsOver wanted (length p) (search_from fuel wanted p (pos off))
  unfolding search_from
  search_from-IsOver zero off h enough = absurd (omega arith)
  search_from-IsOver (suc fuel) off h enough =
      consider-IsOver off (λ next. search_from fuel wanted p next) (java_zip_next_entry p (pos off))
        (sizes off) (next_entry-Progress p small off h)
        (λ n behind inside. search_from-IsOver fuel n inside (omega arith))

-- In an archive shorter than 1 GiB whose entries all state a size under 1 GiB, `java_zip_find_entry` ends after
-- at most one step for each byte and reads inside the archive only. What it finds has the name searched for,
-- and the name and the payload lie inside the archive.
pub java_zip_find_entry-IsOver :
    (p target : List ℕ)
    → length p < 2 ^ 30
    → HasSizes p
    → IsOver (is_named p target) (length p) (java_zip_find_entry (length p + 1) p target)
unfolding java_zip_find_entry
java_zip_find_entry-IsOver p target small sizes =
    search_from-IsOver p (is_named p target) small sizes (length p + 1) 0 (omega arith)
      (omega arith)
