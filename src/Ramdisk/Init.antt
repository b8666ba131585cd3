-- ===== src/Ramdisk/Init.antt =====
-- `ramdisk_init` of src/lib/ramdisk.c: the first directories and the demo files.
use heat_os.Prelude.{
  ℕ, zero, suc, ◌+◌, ◌*◌, ◌%◌, Bool, true, false, Option, none, some, List, [], ◌∷◌, ◌++◌, ltb,
  ◌==◌, ◌&&◌, not, if◌then◌else◌, length, pos,
}
use heat_os.CString.Compare.{strcmp, is_zero}
use heat_os.Ramdisk.{Fs, free, dir, fs_mkdir_child, fs_create_file, fs_write}
use heat_os.Ramdisk.Path.{fs_resolve, fs_build_path}
use heat_os.Ramdisk.DemoData.{hjar_bytes, zipjar_bytes, class_bytes, jar_bytes, text_bytes}

-- `(void)f(...)` and what comes next.
unfoldable pub ignored : Option (Bool × Fs) → (Fs → Option Fs) → Option Fs
ignored none next = none
ignored (some (done, fs)) next = next fs

unfoldable pub with_node : Option ℕ → (ℕ → Option Fs) → Option Fs
with_node none next = none
with_node (some node) next = next node

-- `if (node != 0) { ... }`
unfoldable pub unless_root : ℕ → Option Fs → Fs → Option Fs
unless_root zero block fs = some fs
unless_root (suc node) block fs = block

-- The path that the file is looked up by: that of its parent with the name behind it, where it fits
-- into 24 bytes, and else the name alone.
unfoldable pub demo_path : ℕ → List ℕ → Fs → List ℕ
demo_path parent name fs =
    let path = fs_build_path parent 24 fs in
    let slash = if is_zero (strcmp path (b'/' ∷ [])) then path else path ++ (b'/' ∷ []) in
    if not (parent == 0) && ltb (length path + 1 + length name + 1) 24 then slash ++ name else name

unfoldable pub put_demo : ℕ → List ℕ → List ℕ → Option (Bool × Fs) → Option Fs
unfolding demo_path with_node unless_root
put_demo parent name bytes none = none
put_demo parent name bytes (some (false, fs)) = some fs
put_demo parent name bytes (some (true, fs)) =
    with_node (fs_resolve (demo_path parent name fs) fs)
      (λ node. unless_root node (some (fs_write node (some bytes) (pos (length bytes)) fs).1) fs)

unfoldable pub ramdisk_write_demo_file : ℕ → List ℕ → List ℕ → Fs → Option Fs
unfolding put_demo
ramdisk_write_demo_file parent name bytes fs =
    put_demo parent name bytes (fs_create_file parent name fs)

-- The pixels of one row from column `x` on, `n` of them.
unfoldable pub ppm_row : ℕ → ℕ → ℕ → List ℕ
ppm_row y x zero = []
ppm_row y x (suc n) =
    let inside = ltb 9 x && ltb x 22 && ltb 7 y && ltb y 18 in
    let r = if inside then 245 else (40 + x * 5) % 256 in
    let g = if inside then 244 else (110 + y * 4) % 256 in
    let b = if inside then 232 else (160 + (x + y) * 2) % 256 in r ∷ g ∷ b ∷ ppm_row y (suc x) n

unfoldable pub ppm_rows : ℕ → ℕ → List ℕ
ppm_rows y zero = []
ppm_rows y (suc n) = ppm_row y 0 32 ++ ppm_rows (suc y) n

unfoldable pub ppm_bytes : List ℕ
unfolding ppm_rows
ppm_bytes =
    (b'P' ∷ b'6' ∷ b'\n' ∷ b'3' ∷ b'2' ∷ b' ' ∷ b'2' ∷ b'4' ∷ b'\n' ∷ b'2' ∷ b'5' ∷ b'5' ∷ b'\n'
      ∷ [])
    ++ ppm_rows 0 24

unfoldable pub ramdisk_seed_ppm_demo : ℕ → List ℕ → Fs → Option Fs
ramdisk_seed_ppm_demo parent name fs = ramdisk_write_demo_file parent name ppm_bytes fs

unfoldable pub ramdisk_seed_java_demo : ℕ → List ℕ → Fs → Option Fs
ramdisk_seed_java_demo parent name fs = ramdisk_write_demo_file parent name hjar_bytes fs

unfoldable pub ramdisk_seed_zip_jar_demo : ℕ → List ℕ → Fs → Option Fs
ramdisk_seed_zip_jar_demo parent name fs = ramdisk_write_demo_file parent name zipjar_bytes fs

unfoldable pub ramdisk_seed_class_demo : ℕ → List ℕ → Fs → Option Fs
ramdisk_seed_class_demo parent name fs = ramdisk_write_demo_file parent name class_bytes fs

unfoldable pub ramdisk_seed_tinyjvm_jar_demo : ℕ → List ℕ → Fs → Option Fs
ramdisk_seed_tinyjvm_jar_demo parent name fs = ramdisk_write_demo_file parent name jar_bytes fs

unfoldable pub ramdisk_seed_text_demo : ℕ → List ℕ → Fs → Option Fs
ramdisk_seed_text_demo parent name fs = ramdisk_write_demo_file parent name text_bytes fs

-- One step after another.
unfoldable pub and_then : Option Fs → (Fs → Option Fs) → Option Fs
and_then none next = none
and_then (some fs) next = next fs

-- The names of the first directories and of the demo files.
abbrev pub apps : List ℕ
apps = b'a' ∷ b'p' ∷ b'p' ∷ b's' ∷ []

abbrev pub docs : List ℕ
docs = b'd' ∷ b'o' ∷ b'c' ∷ b's' ∷ []

abbrev pub home : List ℕ
home = b'h' ∷ b'o' ∷ b'm' ∷ b'e' ∷ []

abbrev pub java : List ℕ
java = b'j' ∷ b'a' ∷ b'v' ∷ b'a' ∷ []

abbrev pub plasma : List ℕ
plasma = b'p' ∷ b'l' ∷ b'a' ∷ b's' ∷ b'm' ∷ b'a' ∷ []

abbrev pub system : List ℕ
system = b's' ∷ b'y' ∷ b's' ∷ b't' ∷ b'e' ∷ b'm' ∷ []

abbrev pub config : List ℕ
config = b'c' ∷ b'o' ∷ b'n' ∷ b'f' ∷ b'i' ∷ b'g' ∷ []

abbrev pub session : List ℕ
session = b's' ∷ b'e' ∷ b's' ∷ b's' ∷ b'i' ∷ b'o' ∷ b'n' ∷ []

abbrev pub home_path : List ℕ
home_path = b'/' ∷ b'h' ∷ b'o' ∷ b'm' ∷ b'e' ∷ []

abbrev pub java_path : List ℕ
java_path = b'/' ∷ b'j' ∷ b'a' ∷ b'v' ∷ b'a' ∷ []

abbrev pub plasma_path : List ℕ
plasma_path = b'/' ∷ b'p' ∷ b'l' ∷ b'a' ∷ b's' ∷ b'm' ∷ b'a' ∷ []

abbrev pub sample_ppm : List ℕ
sample_ppm = b's' ∷ b'a' ∷ b'm' ∷ b'p' ∷ b'l' ∷ b'e' ∷ b'.' ∷ b'p' ∷ b'p' ∷ b'm' ∷ []

abbrev pub readme_txt : List ℕ
readme_txt = b'r' ∷ b'e' ∷ b'a' ∷ b'd' ∷ b'm' ∷ b'e' ∷ b'.' ∷ b't' ∷ b'x' ∷ b't' ∷ []

abbrev pub tinyjvm_jar : List ℕ
tinyjvm_jar = b't' ∷ b'i' ∷ b'n' ∷ b'y' ∷ b'j' ∷ b'v' ∷ b'm' ∷ b'.' ∷ b'j' ∷ b'a' ∷ b'r' ∷ []

abbrev pub hello_class : List ℕ
hello_class = b'h' ∷ b'e' ∷ b'l' ∷ b'l' ∷ b'o' ∷ b'.' ∷ b'c' ∷ b'l' ∷ b'a' ∷ b's' ∷ b's' ∷ []

abbrev pub hello_jar : List ℕ
hello_jar = b'h' ∷ b'e' ∷ b'l' ∷ b'l' ∷ b'o' ∷ b'.' ∷ b'j' ∷ b'a' ∷ b'r' ∷ []

abbrev pub sample_jar : List ℕ
sample_jar = b's' ∷ b'a' ∷ b'm' ∷ b'p' ∷ b'l' ∷ b'e' ∷ b'.' ∷ b'j' ∷ b'a' ∷ b'r' ∷ []

-- The `mkdir` calls of `ramdisk_init` in a row.
unfoldable pub mkdirs : ℕ → List (List ℕ) → Fs → Option Fs
unfolding ignored
mkdirs parent [] fs = some fs
mkdirs parent (name ∷ names) fs = ignored (fs_mkdir_child parent name fs) (mkdirs parent names)

unfoldable pub seed_home : ℕ → Fs → Option Fs
unfolding unless_root and_then
seed_home home fs =
    unless_root home
      (and_then (ramdisk_seed_ppm_demo home sample_ppm fs) (ramdisk_seed_text_demo home readme_txt))
      fs

unfoldable pub seed_java : ℕ → Fs → Option Fs
unfolding unless_root and_then
seed_java java fs =
    unless_root java
      (and_then
        (and_then
          (and_then (ramdisk_seed_tinyjvm_jar_demo java tinyjvm_jar fs)
            (ramdisk_seed_class_demo java hello_class))
          (ramdisk_seed_java_demo java hello_jar))
        (ramdisk_seed_zip_jar_demo java sample_jar))
      fs

unfoldable pub ramdisk_seed_demo_files : Fs → Option Fs
unfolding with_node seed_home seed_java
ramdisk_seed_demo_files fs = with_node (fs_resolve home_path fs) (λ home.
    with_node (fs_resolve java_path fs) (λ java. and_then (seed_home home fs) (seed_java java)))

-- The table after the `memset` calls, with the root.
unfoldable pub blank : Fs
blank = record {
  cwd = 0;
  data_free = 0;
  node_type = λ n. if n == 0 then dir else free;
  parent = λ n. 0;
  first_child = λ n. 0;
  next_sibling = λ n. 0;
  size = λ n. 0;
  data_off = λ n. 0;
  name = λ n. [];
  pool = λ n. 0;
}

unfoldable pub seed_plasma : Fs → Option Fs
unfolding with_node unless_root
seed_plasma fs =
    with_node (fs_resolve plasma_path fs)
      (λ root. unless_root root (mkdirs root (apps ∷ config ∷ session ∷ []) fs) fs)

-- What was in the tables before does not matter.
unfoldable pub ramdisk_init : Option Fs
unfolding blank and_then seed_plasma ramdisk_seed_demo_files
ramdisk_init =
    and_then
      (and_then (mkdirs 0 (apps ∷ docs ∷ home ∷ java ∷ plasma ∷ system ∷ []) blank) seed_plasma)
      ramdisk_seed_demo_files
