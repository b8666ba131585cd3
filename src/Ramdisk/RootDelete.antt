-- ===== src/Ramdisk/RootDelete.antt =====
-- `fs_delete` of src/lib/ramdisk.c on a child of the root: the node stays in the root's list, and when
-- it is used again the list is a cycle.
use heat_os.Prelude.{
  ℕ, zero, suc, ◌+◌, ◌≤◌, ◌<◌, ◌≡◌, ◌≢◌, refl, ap, sym, Bool, true, false, Option, none, some, List,
  [], ◌∷◌, ltb, ◌&&◌, if◌then◌else◌, arith, Bool-cases, inl, inr, eq→==, ne→==-false, update,
  lt→leb-false, ltb-false,
}
use heat_os.CString.Compare.{strncmp, is_zero}
use heat_os.Ramdisk.{
  Fs, NodeType, free, dir, max_nodes, name_len, is_free, is_dir_type, alloc_from, fs_alloc_node,
  link_child, fs_copy_name12_lower, take_node, take_unless, create_named, create_child, find_from,
  fs_find_child, fs_is_dir, fs_delete, unlink,
}
use heat_os.Ramdisk.Siblings.{IsLive}

-- The table behind the deletion of the root's child `n`: only the type has changed.
abbrev pub deleted : ℕ → Fs → Fs
deleted n fs = record fs { node_type = update fs.node_type n free }

-- The table after the node `n` has become a child of the root once more.
abbrev pub reused : ℕ → NodeType → List ℕ → Fs → Fs
reused n kind name fs = link_child kind n 0 (fs_copy_name12_lower name) (deleted n fs)

alloc_from-first :
    (m i n : ℕ) (fs : Fs)
    → ((j : ℕ) → i ≤ j → j < n → IsLive fs j)
    → i ≤ n
    → n < i + m
    → is_free (fs.node_type n) ≡ true
    → alloc_from m i fs ≡ n
unfolding alloc_from
alloc_from-first zero i n fs below l h f = absurd (omega arith)
alloc_from-first (suc m) i n fs below l h f = elim (Bool-cases (ltb i n)) [
  | inl e ↦ rw (below i (omega arith) (ground arith)) (
      alloc_from-first m (suc i) n fs (λ j a b. below j (omega arith) b) (ground arith)
        (omega arith) f)
  | inr e ↦ let same : i ≡ n = omega (arith, ltb-false i n e) in rw (same, f)
]

module _ (n : ℕ) (kind : NodeType) (used : is_free kind ≡ false) (name : List ℕ) (fs : Fs)
    (low : 0 < n) (high : n < max_nodes) (root : fs.node_type 0 ≡ dir) (live : IsLive fs n)
    (child : fs.parent n ≡ 0) (head : fs.first_child 0 ≡ n) (no_kids : fs.first_child n ≡ 0)
    (dense : (j : ℕ) → 1 ≤ j → j < n → IsLive fs j) (named : fs_copy_name12_lower name ≢ [])
    (absent : fs_find_child 0 (fs_copy_name12_lower name) (deleted n fs) ≡ some 0) where
  abbrev again : Fs
  again = reused n kind name fs

  delete-root_child : fs_delete n fs ≡ some (true, deleted n fs)
  unfolding fs_delete unlink
  delete-root_child =
      rw (ne→==-false n 0 (λ e. omega arith), lt→leb-false max_nodes n high, live, no_kids, child)
        (both (is_dir_type (fs.node_type n)))
    where
      both :
          (b : Bool)
          → if◌then◌else◌ {A = Option (Bool × Fs)}
              (b && false)
              (some (false, fs))
              (some (true, deleted n fs))
            ≡ some (true, deleted n fs)
      both true = refl
      both false = refl

  loop_facts : (again.first_child 0 ≡ n) × (again.next_sibling n ≡ n)
  unfolding link_child
  loop_facts = (refl, rw (eq→== n n refl, ne→==-false n 0 (λ e. omega arith)) head)

  in_use : is_free (again.node_type n) ≡ false
  unfolding link_child
  in_use = rw (eq→== n n refl) used

  endless :
      (fuel : ℕ) (t : List ℕ)
      → is_zero (strncmp (again.name n) t name_len) ≡ false
      → find_from fuel n t again ≡ none
  unfolding find_from
  endless zero t miss = refl
  endless (suc fuel) t miss =
      rw (ne→==-false n 0 (λ e. omega arith), miss, in_use, loop_facts.1) (endless fuel t miss)

  take_again : take_node kind 0 (fs_copy_name12_lower name) (deleted n fs) ≡ (true, again)
  unfolding take_node fs_alloc_node
  take_again = rw (first, ne→==-false n 0 (λ e. omega arith))
    where
      unused : is_free (update fs.node_type n free n) ≡ true
      unused = unfold is_free in rw (eq→== n n refl)

      others : (j : ℕ) → 1 ≤ j → j < n → IsLive (deleted n fs) j
      others j a b = rw (ne→==-false n j (λ e. omega arith)) (dense j a b)

      first : alloc_from 63 1 (deleted n fs) ≡ n
      first = alloc_from-first 63 1 n (deleted n fs) others (omega arith) (omega arith) unused

  named_again :
      (t : List ℕ)
      → t ≡ fs_copy_name12_lower name
      → create_named kind 0 t (deleted n fs) ≡ some (true, again)
  unfolding create_named take_unless
  named_again [] e = absurd (named (sym e))
  named_again (c ∷ t) e = rw (e, absent) (ap some take_again)

  root_is_dir : fs_is_dir 0 (deleted n fs) ≡ true
  unfolding fs_is_dir is_dir_type
  root_is_dir = rw (ne→==-false n 0 (λ e. omega arith), root)

  create_again : create_child kind 0 name (deleted n fs) ≡ some (true, again)
  unfolding create_child
  create_again = rw root_is_dir (named_again (fs_copy_name12_lower name) refl)

  -- Deleting the root's first child, a file or an empty directory, and creating another entry in the
  -- root, with the deleted node the first unused one, leaves a list of the root's children in which
  -- no search for another name ends: whatever the number of rounds, it is not enough.
  pub root_delete-endless :
      (fuel : ℕ) (t : List ℕ)
      → is_zero (strncmp ((reused n kind name fs).name n) t name_len) ≡ false
      → (fs_delete n fs ≡ some (true, deleted n fs))
        × (create_child kind 0 name (deleted n fs) ≡ some (true, reused n kind name fs))
        × (find_from fuel ((reused n kind name fs).first_child 0) t (reused n kind name fs) ≡ none)
  root_delete-endless fuel t miss =
      (delete-root_child, create_again, rw loop_facts.0 (endless fuel t miss))
