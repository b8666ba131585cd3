-- ===== src/Ramdisk.antt =====
-- src/lib/ramdisk.c, the file system in memory: a table of 64 nodes, each with its parent, its first
-- child and its next sibling, and a pool of 8192 bytes for the files.
pub mod Create
pub mod DemoData
pub mod Init
mod InitTests
pub mod Data
pub mod Path
pub mod Siblings
pub mod RootDelete
mod Tests
use heat_os.Prelude.{
  ℕ, zero, suc, ◌+◌, ◌-◌, ◌*◌, ◌/◌, ◌%◌, ◌^◌, Bool, true, false, Option, none, some, List, [], ◌∷◌,
  ◌++◌, ltb, leb, ◌==◌, ◌||◌, ◌&&◌, not, if◌then◌else◌, update, take, length, ℤ, pos, negsuc,
}
use heat_os.CString.Compare.{strncmp, is_zero}

abbrev pub max_nodes : ℕ
max_nodes = 64

abbrev pub name_len : ℕ
name_len = 12

abbrev pub data_cap : ℕ
data_cap = 8192

-- `fs_node_type_t`
pub data NodeType : Type 0 where
  free dir file : NodeType

unfoldable pub is_free : NodeType → Bool
is_free free = true
is_free dir = false
is_free file = false

unfoldable pub is_dir_type : NodeType → Bool
is_dir_type free = false
is_dir_type dir = true
is_dir_type file = false

unfoldable pub is_file_type : NodeType → Bool
is_file_type free = false
is_file_type dir = false
is_file_type file = true

-- The statics of ramdisk.c. A name is the bytes before its NUL.
pub record Fs : Type 0 where
  pub cwd : ℕ
  pub data_free : ℕ
  pub node_type : ℕ → NodeType
  pub parent : ℕ → ℕ
  pub first_child : ℕ → ℕ
  pub next_sibling : ℕ → ℕ
  pub size : ℕ → ℕ
  pub data_off : ℕ → ℕ
  pub name : ℕ → List ℕ
  pub pool : ℕ → ℕ

unfoldable pub to_lower_c : ℕ → ℕ
to_lower_c c = if leb b'A' c && leb c b'Z' then c - b'A' + b'a' else c

-- The first loop of `fs_copy_name12_lower`, with the room that is left.
unfoldable pub copy_lower : ℕ → List ℕ → List ℕ
copy_lower zero s = []
copy_lower (suc room) [] = []
copy_lower (suc room) (c ∷ s) = to_lower_c c ∷ copy_lower room s

unfoldable pub fs_copy_name12_lower : List ℕ → List ℕ
unfolding copy_lower
fs_copy_name12_lower src = copy_lower (name_len - 1) src

-- The loop of `fs_alloc_node` from `i` on, `n` nodes before the end of the table.
unfoldable pub alloc_from : ℕ → ℕ → Fs → ℕ
alloc_from zero i fs = 0
alloc_from (suc n) i fs =
    let rest = alloc_from n (suc i) fs in if is_free (fs.node_type i) then i else rest

unfoldable pub fs_alloc_node : Fs → ℕ
fs_alloc_node fs = alloc_from (max_nodes - 1) 1 fs

-- A walk along siblings ends within as many rounds as there are nodes, if it ends at all.
pub walk_fuel : ℕ
walk_fuel = max_nodes + 1

-- The loop of `fs_find_child` from the sibling `n` on. `none` means that the fuel ran out.
unfoldable pub find_from : ℕ → ℕ → List ℕ → Fs → Option ℕ
find_from zero n token fs = none
find_from (suc fuel) n token fs =
    let rest = find_from fuel (fs.next_sibling n) token fs in
    if n == 0
    then some 0
    else if not (is_free (fs.node_type n)) && is_zero (strncmp (fs.name n) token name_len)
    then some n
    else rest

unfoldable pub fs_find_child : ℕ → List ℕ → Fs → Option ℕ
fs_find_child parent token fs = find_from walk_fuel (fs.first_child parent) token fs

unfoldable pub fs_is_dir : ℕ → Fs → Bool
fs_is_dir node fs = if leb max_nodes node then false else is_dir_type (fs.node_type node)

unfoldable pub fs_is_file : ℕ → Fs → Bool
fs_is_file node fs = if leb max_nodes node then false else is_file_type (fs.node_type node)

unfoldable pub fs_cwd_set : ℕ → Fs → Fs
fs_cwd_set node fs =
    if ltb node max_nodes && fs_is_dir node fs then record fs { cwd = node } else fs

-- The writes that `fs_mkdir_child` and `fs_create_file` share: the node `n` becomes the first child.
unfoldable pub link_child : NodeType → ℕ → ℕ → List ℕ → Fs → Fs
link_child kind n parent token fs = record fs {
  node_type = update fs.node_type n kind;
  parent = update fs.parent n parent;
  first_child = update (update fs.first_child n 0) parent n;
  next_sibling = update fs.next_sibling n (update fs.first_child n 0 parent);
  size = update fs.size n 0;
  data_off = update fs.data_off n 0;
  name = update fs.name n (fs_copy_name12_lower token);
}

-- The part behind the search: a node is taken, or there is none.
unfoldable pub take_node : NodeType → ℕ → List ℕ → Fs → Bool × Fs
unfolding link_child
take_node kind parent token fs =
    let n = fs_alloc_node fs in
    if n == 0 then (false, fs) else (true, link_child kind n parent token fs)

-- What the search for the name found.
unfoldable pub take_unless : NodeType → ℕ → List ℕ → Fs → Option ℕ → Option (Bool × Fs)
unfolding take_node
take_unless kind parent token fs none = none
take_unless kind parent token fs (some zero) = some (take_node kind parent token fs)
take_unless kind parent token fs (some (suc child)) = some (false, fs)

-- `if (token[0] == '\0') return false;` and on.
unfoldable pub create_named : NodeType → ℕ → List ℕ → Fs → Option (Bool × Fs)
unfolding take_unless
create_named kind parent [] fs = some (false, fs)
create_named kind parent (c ∷ token) fs =
    take_unless kind parent (c ∷ token) fs (fs_find_child parent (c ∷ token) fs)

-- The two functions differ only in the type of the new node. `none` means that the search does not
-- end; the Boolean is the C result. The name is no null pointer.
unfoldable pub create_child : NodeType → ℕ → List ℕ → Fs → Option (Bool × Fs)
unfolding create_named
create_child kind parent name fs =
    if leb max_nodes parent || not (fs_is_dir parent fs)
    then some (false, fs)
    else create_named kind parent (fs_copy_name12_lower name) fs

unfoldable pub fs_mkdir_child : ℕ → List ℕ → Fs → Option (Bool × Fs)
unfolding create_child
fs_mkdir_child parent name fs = create_child dir parent name fs

unfoldable pub fs_create_file : ℕ → List ℕ → Fs → Option (Bool × Fs)
unfolding create_child
fs_create_file parent name fs = create_child file parent name fs

-- The first child of a directory, if there is one.
unfoldable pub fs_list_begin : ℕ → Fs → Option ℕ
fs_list_begin d fs =
    if not (fs_is_dir d fs)
    then none
    else if fs.first_child d == 0
    then none
    else some (fs.first_child d)

-- The child that the iterator stands at, and the iterator behind it.
unfoldable pub fs_list_next : ℕ → Fs → Option (ℕ × ℕ)
fs_list_next iter fs = if iter == 0 then none else some (iter, fs.next_sibling iter)

unfoldable pub fs_get_name : ℕ → Fs → List ℕ
fs_get_name node fs = if leb max_nodes node then [] else fs.name node

-- The loop of `fs_delete`: the sibling in front of `node`, or 0.
unfoldable pub find_before : ℕ → ℕ → ℕ → Fs → Option ℕ
find_before zero node cur fs = none
find_before (suc fuel) node cur fs =
    let rest = find_before fuel node (fs.next_sibling cur) fs in
    if cur == 0 then some 0 else if fs.next_sibling cur == node then some cur else rest

-- `if (cur != 0) fs_node_next_sibling[cur] = fs_node_next_sibling[node];`
unfoldable pub unlink_after : ℕ → Fs → Option ℕ → Option Fs
unlink_after node fs none = none
unlink_after node fs (some zero) = some fs
unlink_after node fs (some (suc cur)) =
    some (record fs { next_sibling = update fs.next_sibling (suc cur) (fs.next_sibling node) })

-- The node taken out of the children of its parent; those of the root are left as they are.
unfoldable pub unlink : ℕ → Fs → Option Fs
unfolding unlink_after
unlink node fs =
    let parent = fs.parent node in
    if parent == 0
    then some fs
    else if fs.first_child parent == node
    then some (record fs { first_child = update fs.first_child parent (fs.next_sibling node) })
    else unlink_after node fs (find_before walk_fuel node (fs.first_child parent) fs)

-- `fs_node_type[node] = FS_TYPE_FREE; return true;`
unfoldable pub set_free : ℕ → Option Fs → Option (Bool × Fs)
set_free node none = none
set_free node (some fs) = some (true, record fs { node_type = update fs.node_type node free })

unfoldable pub fs_delete : ℕ → Fs → Option (Bool × Fs)
unfolding set_free
fs_delete node fs =
    if (node == 0) || leb max_nodes node || is_free (fs.node_type node)
    then some (false, fs)
    else if is_dir_type (fs.node_type node) && not (fs.first_child node == 0)
    then some (false, fs)
    else set_free node (unlink node fs)

-- `memcpy` out of the pool and into it.
unfoldable pub pool_read : (ℕ → ℕ) → ℕ → ℕ → List ℕ
pool_read p off zero = []
pool_read p off (suc n) = p off ∷ pool_read p (suc off) n

unfoldable pub pool_write : (ℕ → ℕ) → ℕ → List ℕ → ℕ → ℕ
pool_write p off [] = p
pool_write p off (c ∷ cs) = pool_write (update p off c) (suc off) cs

-- `actual` of `fs_read`: the smaller of the request and the file's size.
unfoldable pub actual_size : ℤ → ℕ → ℤ
actual_size (pos n) size = if ltb n size then pos n else pos size
actual_size (negsuc n) size = negsuc n

-- What is copied: nothing for a count that is not positive.
unfoldable pub copied : (ℕ → ℕ) → ℕ → ℤ → List ℕ
copied p off (pos n) = pool_read p off n
copied p off (negsuc n) = []

-- The result of `fs_read`, and the bytes that it puts into a buffer that is no null pointer.
unfoldable pub fs_read : ℕ → ℤ → Fs → ℤ × List ℕ
unfolding actual_size copied
fs_read node size fs =
    if leb max_nodes node || not (fs_is_file node fs)
    then (negsuc 0, [])
    else let n = actual_size size (fs.size node) in (n, copied fs.pool (fs.data_off node) n)

-- The writes of `fs_write` for `size` bytes.
unfoldable pub put_data : ℕ → List ℕ → ℕ → Fs → Fs
put_data node bytes size fs = record fs {
  data_off = update fs.data_off node fs.data_free;
  size = update fs.size node (size % 2 ^ 16);
  pool = pool_write fs.pool fs.data_free (take size bytes);
  data_free = (fs.data_free + size % 2 ^ 16) % 2 ^ 16;
}

-- `fs_write` for a size that is not negative. `none` is a null buffer.
unfoldable pub write_sized : ℕ → Option (List ℕ) → ℕ → Fs → Bool × Fs
unfolding put_data
write_sized node none size fs =
    if ltb 0 size || ltb data_cap (fs.data_free + size)
    then (false, fs)
    else (true, put_data node [] size fs)
write_sized node (some bytes) size fs =
    if ltb data_cap (fs.data_free + size) then (false, fs) else (true, put_data node bytes size fs)

unfoldable pub write_checked : ℕ → Option (List ℕ) → ℤ → Fs → Bool × Fs
unfolding write_sized
write_checked node buf (negsuc n) fs = (false, fs)
write_checked node buf (pos size) fs = write_sized node buf size fs

unfoldable pub fs_write : ℕ → Option (List ℕ) → ℤ → Fs → Bool × Fs
unfolding write_checked
fs_write node buf size fs =
    if leb max_nodes node || not (fs_is_file node fs)
    then (false, fs)
    else write_checked node buf size fs
