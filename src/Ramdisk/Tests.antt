-- ===== src/Ramdisk/Tests.antt =====
-- Runs of src/lib/ramdisk.c on a table with a root, the directory `etc` in it, and a file in that one.
use heat_os.Prelude.{
  ℕ, zero, suc, if◌then◌else◌, ◌<◌, ◌≡◌, refl, Bool, true, false, none, some, List, [], ◌∷◌, arith,
  ◌==◌, pos, take,
}
use heat_os.CString.Compare.{strncmp, is_zero}
use heat_os.Ramdisk.{
  Fs, NodeType, free, dir, file, is_free, fs_is_file, is_file_type, create_child, fs_find_child,
  fs_delete, find_from, fs_copy_name12_lower, copy_lower, to_lower_c, walk_fuel, link_child,
  fs_read, fs_write,
}
use heat_os.Ramdisk.Siblings.{Kids, IsValid, lookup_kids, fs_find_child-lookup}
use heat_os.Ramdisk.Create.{Created, create_child-Created}
use heat_os.Ramdisk.Data.{IsPacked, fs_read-fs_write}
use heat_os.Ramdisk.RootDelete.{deleted, reused, root_delete-endless}

types : ℕ → NodeType
types zero = dir
types (suc zero) = dir
types (suc (suc zero)) = file
types (suc (suc (suc n))) = free

abbrev table : Fs
table = record {
  cwd = 0;
  data_free = 0;
  node_type = types;
  parent = λ n. if n == 2 then 1 else 0;
  first_child = λ n. if n == 0 then 1 else if n == 1 then 2 else 0;
  next_sibling = λ n. 0;
  size = λ n. 0;
  data_off = λ n. 0;
  name = λ n. if n == 1 then b'e' ∷ b't' ∷ b'c' ∷ [] else if n == 2 then b'm' ∷ [] else [];
  pool = λ n. 0;
}

kids : ℕ → List ℕ
kids zero = 1 ∷ []
kids (suc zero) = 2 ∷ []
kids (suc (suc n)) = []

table-IsValid : IsValid table
unfolding is_free types kids
table-IsValid = record { kids = kids; root = refl; chains = chains }
  where
    chains :
        (d : ℕ) → d < 64 → is_free (types d) ≡ false → Kids table d (table.first_child d) (kids d)
    chains zero h live = (refl, omega arith, omega arith, refl, refl, tt, refl)
    chains (suc zero) h live = (refl, omega arith, omega arith, refl, refl, tt, refl)
    chains (suc (suc zero)) h live = refl
    chains (suc (suc (suc n))) h live = cc

table-IsPacked : IsPacked table
table-IsPacked = record { within = omega arith; files = λ f. omega arith }

fs_find_child-lookup_example :
    fs_find_child 0 (b'e' ∷ b't' ∷ b'c' ∷ []) table
    ≡ some (lookup_kids table (b'e' ∷ b't' ∷ b'c' ∷ []) (table-IsValid.kids 0))
unfolding is_free types
fs_find_child-lookup_example =
    fs_find_child-lookup 0 (b'e' ∷ b't' ∷ b'c' ∷ []) table-IsValid (omega arith) refl

create_child-Created_example :
    (r : Bool × Fs) × (create_child file 1 (b'N' ∷ b'e' ∷ b'w' ∷ []) table ≡ some r)
    × Created file 1 (b'N' ∷ b'e' ∷ b'w' ∷ []) table r
unfolding is_free
create_child-Created_example =
    create_child-Created file 1 (b'N' ∷ b'e' ∷ b'w' ∷ []) refl table-IsValid

fs_read-fs_write_example :
    let (done, g) = fs_write 2 (some (b'h' ∷ b'i' ∷ b'!' ∷ [])) (pos 2) table in
    (done ≡ true)
    × (fs_read 2 (pos 64) g ≡ (pos 2, take 2 (b'h' ∷ b'i' ∷ b'!' ∷ [])))
    × (fs_read 3 (pos 5) g ≡ fs_read 3 (pos 5) table)
    × IsPacked g
unfolding fs_is_file is_file_type types
fs_read-fs_write_example =
    fs_read-fs_write 2 2 (b'h' ∷ b'i' ∷ b'!' ∷ []) table-IsPacked refl (omega arith) (omega arith)
      (omega arith) 64 (omega arith) 3 (pos 5) (omega arith)

-- The root with one empty directory `etc`.
types' : ℕ → NodeType
types' zero = dir
types' (suc zero) = dir
types' (suc (suc n)) = free

abbrev lone : Fs
lone = record table { node_type = types'; first_child = λ n. if n == 0 then 1 else 0 }

abbrev var : List ℕ
var = b'v' ∷ b'a' ∷ b'r' ∷ []

root_delete-endless_example :
    (fs_delete 1 lone ≡ some (true, deleted 1 lone))
    × (create_child file 0 var (deleted 1 lone) ≡ some (true, reused 1 file var lone))
    × (find_from 100 ((reused 1 file var lone).first_child 0) (b'x' ∷ []) (reused 1 file var lone)
        ≡ none)
unfolding is_free types' fs_find_child find_from fs_copy_name12_lower copy_lower to_lower_c strncmp
    is_zero walk_fuel link_child
root_delete-endless_example =
    root_delete-endless 1 file refl var lone (omega arith) (omega arith) refl refl refl refl refl
      (λ j a b. absurd (omega arith)) (λ e. cc) refl 100 (b'x' ∷ []) refl
