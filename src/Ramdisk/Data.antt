-- ===== src/Ramdisk/Data.antt =====
-- `fs_write` and `fs_read` of src/lib/ramdisk.c: the pool as it is given out from its start.
use heat_os.Prelude.{
  ℕ, zero, suc, ◌+◌, ◌-◌, ◌≤◌, ◌<◌, ◌%◌, ◌≡◌, ◌≢◌, refl, ap, ap₂, ◌∙◌, sym, true, false, some, List,
  [], ◌∷◌, ◌==◌, leb, ◌||◌, not, if◌then◌else◌, length, take, length-take, arith, Bool-cases, inl,
  inr, eq→==, ne→==-false, update, update_ne, update_self, ℤ, pos, negsuc, le→ltb-false, lt→ltb,
  lt→leb-false,
}
use heat_os.Ramdisk.{
  Fs, max_nodes, data_cap, fs_is_file, is_file_type, pool_read, pool_write, actual_size, copied,
  fs_read, put_data, fs_write,
}

-- No file reaches past what the pool has given out.
pub record IsPacked (fs : Fs) : Type 0 where
  pub within : fs.data_free ≤ data_cap
  pub files : (f : ℕ) → fs.data_off f + fs.size f ≤ fs.data_free

pool_write_below :
    (p : ℕ → ℕ) (off : ℕ) (cs : List ℕ) (j : ℕ) → j < off → pool_write p off cs j ≡ p j
unfolding pool_write
pool_write_below p off [] j h = refl
pool_write_below p off (c ∷ cs) j h =
    pool_write_below (update p off c) (suc off) cs j (omega arith)
    ∙ update_ne p off j c (λ e. omega arith)

pool_read-pool_write :
    (p : ℕ → ℕ) (off : ℕ) (cs : List ℕ) → pool_read (pool_write p off cs) off (length cs) ≡ cs
unfolding pool_read pool_write
pool_read-pool_write p off [] = refl
pool_read-pool_write p off (c ∷ cs) =
    ap₂ ◌∷◌ (pool_write_below (update p off c) (suc off) cs off (omega arith) ∙ update_self p off c)
      (pool_read-pool_write (update p off c) (suc off) cs)

pool_read_below :
    (p : ℕ → ℕ) (off : ℕ) (cs : List ℕ) (at n : ℕ)
    → at + n ≤ off
    → pool_read (pool_write p off cs) at n ≡ pool_read p at n
unfolding pool_read
pool_read_below p off cs at zero h = refl
pool_read_below p off cs at (suc n) h =
    ap₂ ◌∷◌ (pool_write_below p off cs at (omega arith))
      (pool_read_below p off cs (suc at) n (omega arith))

-- The bytes that a count stands for.
abbrev count : ℤ → ℕ
count (pos k) = k
count (negsuc k) = 0

actual_size-le : (m : ℤ) (size room : ℕ) → size ≤ room → count (actual_size m size) ≤ room
unfolding actual_size
actual_size-le (pos m) size room h = ground arith
actual_size-le (negsuc m) size room h = omega arith

module _ (node n : ℕ) (bytes : List ℕ) {fs : Fs} (packed : IsPacked fs)
    (is_file : fs_is_file node fs ≡ true) (in_table : node < max_nodes)
    (given : n ≤ length bytes) where
  -- Without room nothing is written.
  pub fs_write_full :
      data_cap < fs.data_free + n → fs_write node (some bytes) (pos n) fs ≡ (false, fs)
  unfolding fs_write
  fs_write_full h =
      rw (lt→leb-false max_nodes node in_table, is_file, lt→ltb data_cap (fs.data_free + n) h)

  module _ (room : fs.data_free + n ≤ data_cap) where
    abbrev written : Fs
    written = put_data node bytes n fs

    fs_write-put : fs_write node (some bytes) (pos n) fs ≡ (true, written)
    unfolding fs_write
    fs_write-put = rw (
      lt→leb-false max_nodes node in_table,
      is_file,
      le→ltb-false data_cap (fs.data_free + n) room,
    )

    still_file : (f : ℕ) → fs_is_file f written ≡ fs_is_file f fs
    unfolding fs_is_file put_data
    still_file f = refl

    sizes :
        (written.size node ≡ n)
        × (written.data_off node ≡ fs.data_free)
        × (written.data_free ≡ fs.data_free + n)
    unfolding put_data
    sizes =
        rw (eq→== node node refl) (omega (arith, packed.within), refl, omega (arith, packed.within))

    written-IsPacked : IsPacked written
    unfolding put_data
    written-IsPacked = record {
      within = omega (arith, packed.within);
      files = λ f. elim (Bool-cases (node == f)) [
        | inl e ↦ rw e (omega (arith, packed.within))
        | inr e ↦ rw e (omega (arith, packed.files f, packed.within))
      ];
    }

    -- The bytes come back, up to the count asked for.
    read_back : (m : ℕ) → n ≤ m → fs_read node (pos m) written ≡ (pos n, take n bytes)
    unfolding fs_read put_data fs_is_file
    read_back m h =
        rw
          (
            lt→leb-false max_nodes node in_table,
            is_file_type_lem,
            eq→== node node refl,
            small,
            le→ltb-false m n h,
          )
          (ap (λ l. (pos n, l))
            (ap (pool_read (pool_write fs.pool fs.data_free (take n bytes)) fs.data_free) (sym len)
              ∙ pool_read-pool_write fs.pool fs.data_free (take n bytes)))
      where
        small : n % 65536 ≡ n
        small = omega (arith, packed.within)

        len : length (take n bytes) ≡ n
        len = omega (arith, length-take n bytes)

        is_file_type_lem : is_file_type (fs.node_type node) ≡ true
        is_file_type_lem = rw (lt→leb-false max_nodes node in_table) at is_file

    -- What another file holds is as before.
    read_other : (f : ℕ) (m : ℤ) → node ≢ f → fs_read f m written ≡ fs_read f m fs
    unfolding fs_read put_data fs_is_file
    read_other f m ne = rw (ne→==-false node f ne) (
        ap
          (λ l.
            if leb max_nodes f || not (fs_is_file f fs)
            then (negsuc 0, [])
            else (actual_size m (fs.size f), l))
          (copied_before (actual_size m (fs.size f)) (
            actual_size-le m (fs.size f) (fs.data_free - fs.data_off f)
              (omega (arith, packed.files f)))))
      where
        copied_before :
            (k : ℤ)
            → count k ≤ fs.data_free - fs.data_off f
            → copied (pool_write fs.pool fs.data_free (take n bytes)) (fs.data_off f) k
              ≡ copied fs.pool (fs.data_off f) k
        copied_before (pos k) b =
            pool_read_below fs.pool fs.data_free (take n bytes) (fs.data_off f) k
              (omega (arith, packed.files f))
        copied_before (negsuc k) b = refl

-- Writing the first `n` bytes of a buffer to a file for which the pool has room returns true; a read of
-- at least `n` bytes then gives those bytes, every other node reads as before, and no file reaches
-- past what the pool has given out.
pub fs_read-fs_write :
    (node n : ℕ) (bytes : List ℕ) {fs : Fs}
    → IsPacked fs
    → fs_is_file node fs ≡ true
    → node < max_nodes
    → n ≤ length bytes
    → fs.data_free + n ≤ data_cap
    → (m : ℕ) → n ≤ m
    → (f : ℕ) (k : ℤ) → node ≢ f
    → let (done, g) = fs_write node (some bytes) (pos n) fs in
      (done ≡ true)
      × (fs_read node (pos m) g ≡ (pos n, take n bytes))
      × (fs_read f k g ≡ fs_read f k fs)
      × IsPacked g
fs_read-fs_write node n bytes packed is_file in_table given room m enough f k other =
    rw (fs_write-put node n bytes packed is_file in_table given room) (
      refl,
      read_back node n bytes packed is_file in_table given room m enough,
      read_other node n bytes packed is_file in_table given room f k other,
      written-IsPacked node n bytes packed is_file in_table given room,
    )
