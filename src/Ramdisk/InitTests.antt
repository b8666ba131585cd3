-- ===== src/Ramdisk/InitTests.antt =====
-- The file system that src/lib/ramdisk.c starts with.
use heat_os.Prelude.{ℕ, ◌≡◌, refl, Option, none, some, List, [], ◌∷◌, pos}
use heat_os.Ramdisk.{Fs, fs_read}
use heat_os.Ramdisk.Path.{fs_resolve}
use heat_os.Ramdisk.DemoData.{text_bytes}
use heat_os.Ramdisk.Init.{ramdisk_init}

-- `/home/readme.txt`
abbrev readme : List ℕ
readme =
    b'/' ∷ b'h' ∷ b'o' ∷ b'm' ∷ b'e' ∷ b'/' ∷ b'r' ∷ b'e' ∷ b'a' ∷ b'd' ∷ b'm' ∷ b'e' ∷ b'.' ∷ b't'
    ∷ b'x' ∷ b't' ∷ []

read_at : List ℕ → Option Fs → Option (List ℕ)
read_at path none = none
read_at path (some fs) = elim (fs_resolve path fs) [
  | none ↦ none
  | some n ↦ some (fs_read n (pos 4096) fs).1
]

readme_text : read_at readme ramdisk_init ≡ some text_bytes
unfolding read_at heat_os.Ramdisk.is_free heat_os.Ramdisk.is_dir_type heat_os.Ramdisk.is_file_type
    heat_os.Ramdisk.to_lower_c heat_os.Ramdisk.copy_lower heat_os.Ramdisk.fs_copy_name12_lower
    heat_os.Ramdisk.alloc_from heat_os.Ramdisk.fs_alloc_node heat_os.Ramdisk.walk_fuel
    heat_os.Ramdisk.find_from heat_os.Ramdisk.fs_find_child heat_os.Ramdisk.fs_is_dir
    heat_os.Ramdisk.fs_is_file heat_os.Ramdisk.link_child heat_os.Ramdisk.take_node
    heat_os.Ramdisk.take_unless heat_os.Ramdisk.create_named heat_os.Ramdisk.create_child
    heat_os.Ramdisk.fs_mkdir_child heat_os.Ramdisk.fs_create_file heat_os.Ramdisk.pool_read
    heat_os.Ramdisk.pool_write heat_os.Ramdisk.actual_size heat_os.Ramdisk.copied
    heat_os.Ramdisk.fs_read heat_os.Ramdisk.put_data heat_os.Ramdisk.write_sized
    heat_os.Ramdisk.write_checked heat_os.Ramdisk.fs_write heat_os.Ramdisk.Path.is_separator
    heat_os.Ramdisk.Path.skip_separators heat_os.Ramdisk.Path.read_token
    heat_os.Ramdisk.Path.skip_token heat_os.Ramdisk.Path.token_at heat_os.Ramdisk.Path.fs_next_token
    heat_os.Ramdisk.Path.skip_slashes heat_os.Ramdisk.Path.child_found
    heat_os.Ramdisk.Path.step_into heat_os.Ramdisk.Path.resolve_from
    heat_os.Ramdisk.Path.fs_resolve_checked heat_os.Ramdisk.Path.or_root
    heat_os.Ramdisk.Path.fs_resolve heat_os.Ramdisk.Path.ancestors heat_os.Ramdisk.Path.put_chars
    heat_os.Ramdisk.Path.put_names heat_os.Ramdisk.Path.fs_build_path heat_os.Ramdisk.Init.ignored
    heat_os.Ramdisk.Init.with_node heat_os.Ramdisk.Init.unless_root heat_os.Ramdisk.Init.demo_path
    heat_os.Ramdisk.Init.put_demo heat_os.Ramdisk.Init.ramdisk_write_demo_file
    heat_os.Ramdisk.Init.ppm_row heat_os.Ramdisk.Init.ppm_rows heat_os.Ramdisk.Init.ppm_bytes
    heat_os.Ramdisk.Init.ramdisk_seed_ppm_demo heat_os.Ramdisk.Init.ramdisk_seed_java_demo
    heat_os.Ramdisk.Init.ramdisk_seed_zip_jar_demo heat_os.Ramdisk.Init.ramdisk_seed_class_demo
    heat_os.Ramdisk.Init.ramdisk_seed_tinyjvm_jar_demo heat_os.Ramdisk.Init.ramdisk_seed_text_demo
    heat_os.Ramdisk.Init.and_then heat_os.Ramdisk.Init.mkdirs heat_os.Ramdisk.Init.seed_home
    heat_os.Ramdisk.Init.seed_java heat_os.Ramdisk.Init.ramdisk_seed_demo_files
    heat_os.Ramdisk.Init.blank heat_os.Ramdisk.Init.seed_plasma heat_os.Ramdisk.Init.ramdisk_init
    heat_os.CString.Compare.strcmp heat_os.CString.Compare.strncmp heat_os.CString.Compare.is_zero
readme_text = refl
