-- ===== src/Ramdisk/Siblings.antt =====
-- The sibling lists of src/lib/ramdisk.c as lists, the invariant of the node table, and the search of
-- `fs_find_child` on it.
use heat_os.Prelude.{
  NotIn, IsDistinctBelow, length-IsDistinctBelow, ℕ, zero, suc, ◌<◌, ◌≡◌, ◌∙◌, false, some, List,
  [], ◌∷◌, if◌then◌else◌, length, arith, Bool-cases, inl, inr, eq→==, ne→==-false,
}
use heat_os.CString.Compare.{strncmp, is_zero}
use heat_os.Ramdisk.{Fs, max_nodes, name_len, is_free, find_from, fs_find_child, walk_fuel}

abbrev pub IsLive : Fs → ℕ → Type 0
IsLive fs n = is_free (fs.node_type n) ≡ false

-- From the node `n` the `next_sibling` entries lead through the distinct nodes `l`, which are in use
-- and have the parent `d`.
abbrev pub Kids : Fs → ℕ → ℕ → List ℕ → Type 0
Kids fs d n [] = n ≡ 0
Kids fs d n (k ∷ l) =
    (n ≡ k)
    × (0 < k)
    × (k < max_nodes)
    × IsLive fs k
    × (fs.parent k ≡ d)
    × NotIn k l
    × Kids fs d (fs.next_sibling k) l

-- The invariant: every node in use has a finite list of children, with no cycle; node 0 is in use.
pub record IsValid (fs : Fs) : Type 0 where
  pub kids : ℕ → List ℕ
  pub root : IsLive fs 0
  pub chains : (d : ℕ) → d < max_nodes → IsLive fs d → Kids fs d (fs.first_child d) (kids d)

pub Kids-frame :
    (fs g : Fs) (d n : ℕ) (l : List ℕ)
    → ((k : ℕ)
        → IsLive fs k
        → (g.next_sibling k ≡ fs.next_sibling k) × IsLive g k × (g.parent k ≡ fs.parent k))
    → Kids fs d n l
    → Kids g d n l
Kids-frame fs g d n [] same c = c
Kids-frame fs g d n (k ∷ l) same (e, p, u, v, w, o, c) =
    let (s, v', w') = same k v in
    (e, p, u, v', w' ∙ w, o, rw s (Kids-frame fs g d (fs.next_sibling k) l same c))

Kids-distinct : (fs : Fs) (d n : ℕ) (l : List ℕ) → Kids fs d n l → IsDistinctBelow max_nodes l
Kids-distinct fs d n [] c = tt
Kids-distinct fs d n (k ∷ l) (e, p, u, v, w, o, c) =
    (u, o, Kids-distinct fs d (fs.next_sibling k) l c)

pub length-Kids : (fs : Fs) (d n : ℕ) (l : List ℕ) → Kids fs d n l → length l < walk_fuel
unfolding walk_fuel
length-Kids fs d n l c =
    omega (arith, length-IsDistinctBelow max_nodes l (Kids-distinct fs d n l c))

-- The first of the nodes `l` whose name is `token`, or 0.
unfoldable pub lookup_kids : Fs → List ℕ → List ℕ → ℕ
lookup_kids fs token [] = 0
lookup_kids fs token (k ∷ l) =
    if is_zero (strncmp (fs.name k) token name_len) then k else lookup_kids fs token l

find_from-lookup :
    (fuel d n : ℕ) (l token : List ℕ) (fs : Fs)
    → length l < fuel
    → Kids fs d n l
    → find_from fuel n token fs ≡ some (lookup_kids fs token l)
unfolding find_from lookup_kids
find_from-lookup zero d n l token fs h c = absurd (omega arith)
find_from-lookup (suc fuel) d n [] token fs h c = rw (eq→== n 0 c)
find_from-lookup (suc fuel) d n (k ∷ l) token fs h (e, p, u, v, w, o, c) =
    elim (Bool-cases (is_zero (strncmp (fs.name k) token name_len))) [
      | inl hit ↦ rw (e, ne→==-false k 0 (λ z. omega arith), v, hit)
      | inr miss ↦
          rw (e, ne→==-false k 0 (λ z. omega arith), v, miss)
            (find_from-lookup fuel d (fs.next_sibling k) l token fs (omega arith) c)
    ]

pub fs_find_child-Kids :
    (d : ℕ) (l token : List ℕ) (fs : Fs)
    → Kids fs d (fs.first_child d) l
    → fs_find_child d token fs ≡ some (lookup_kids fs token l)
unfolding fs_find_child
fs_find_child-Kids d l token fs c =
    find_from-lookup walk_fuel d (fs.first_child d) l token fs
      (length-Kids fs d (fs.first_child d) l c) c

-- On a valid table the search of `fs_find_child` ends, with the first child that has the name.
pub fs_find_child-lookup :
    (d : ℕ) (token : List ℕ) {fs : Fs} (v : IsValid fs)
    → d < max_nodes
    → IsLive fs d
    → fs_find_child d token fs ≡ some (lookup_kids fs token (v.kids d))
fs_find_child-lookup d token {fs} v b live =
    fs_find_child-Kids d (v.kids d) token fs (v.chains d b live)
