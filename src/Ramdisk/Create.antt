-- ===== src/Ramdisk/Create.antt =====
-- `fs_mkdir_child` and `fs_create_file` of src/lib/ramdisk.c keep the node table valid, and the new
-- node is found under its name.
use native.Mathlib.Decide.{ℕ_discrete}
use heat_os.Prelude.{
  NotIn, ℕ, zero, suc, ◌+◌, ◌-◌, ◌≤◌, ◌<◌, ◌≡◌, ◌≢◌, refl, ap, ◌∙◌, sym, Bool, true, false, some,
  List, [], ◌∷◌, ◌==◌, leb, if◌then◌else◌, arith, Bool-cases, inl, inr, eq→==, ne→==-false, update,
  leb-false, subst,
}
use heat_os.CString.Compare.{strncmp, is_zero}
use heat_os.Ramdisk.{
  Fs, NodeType, dir, file, free, max_nodes, name_len, is_free, alloc_from, fs_alloc_node,
  link_child, fs_copy_name12_lower, take_node, take_unless, create_named, create_child,
  fs_find_child, fs_is_dir, is_dir_type, copy_lower, to_lower_c,
}
use heat_os.Ramdisk.Siblings.{
  IsLive, Kids, IsValid, Kids-frame, lookup_kids, fs_find_child-lookup, fs_find_child-Kids,
}

alloc_from-free :
    (n i : ℕ) (fs : Fs)
    → (alloc_from n i fs ≢ 0)
    → (i ≤ alloc_from n i fs)
      × (alloc_from n i fs < i + n)
      × (is_free (fs.node_type (alloc_from n i fs)) ≡ true)
unfolding alloc_from
alloc_from-free zero i fs ne = absurd (ne refl)
alloc_from-free (suc n) i fs ne = elim (Bool-cases (is_free (fs.node_type i))) [
  | inl e ↦ rw e (omega arith, omega arith, e)
  | inr e ↦
      let (low, high, f) = alloc_from-free n (suc i) fs (rw e at ne) in
      rw e (omega arith, omega arith, f)
]

Kids-NotIn :
    (a : ℕ) (fs : Fs) (d n : ℕ) (l : List ℕ)
    → is_free (fs.node_type a) ≡ true
    → Kids fs d n l
    → NotIn a l
Kids-NotIn a fs d n [] f c = tt
Kids-NotIn a fs d n (k ∷ l) f (e, p, u, v, w, o, c) =
    (live_ne f v, Kids-NotIn a fs d (fs.next_sibling k) l f c)
  where
    live_ne : {k : ℕ} → is_free (fs.node_type a) ≡ true → IsLive fs k → a ≢ k
    live_ne f v e = cc

module _ (kind : NodeType) (used : is_free kind ≡ false) (n parent : ℕ) (token : List ℕ) {fs : Fs}
    (v : IsValid fs) (low : 0 < n) (high : n < max_nodes) (unused : is_free (fs.node_type n) ≡ true)
    (in_table : parent < max_nodes) (live : IsLive fs parent) where
  abbrev linked : Fs
  linked = link_child kind n parent token fs

  live_ne : {k : ℕ} → IsLive fs k → n ≢ k
  live_ne u e = cc

  IsLive-kept : (k : ℕ) → IsLive fs k → IsLive linked k
  unfolding link_child
  IsLive-kept k u = rw (ne→==-false n k (live_ne u)) u

  kept :
      (k : ℕ)
      → IsLive fs k
      → (linked.next_sibling k ≡ fs.next_sibling k)
        × IsLive linked k
        × (linked.parent k ≡ fs.parent k)
  unfolding link_child
  kept k u = rw (ne→==-false n k (live_ne u)) (refl, u, refl)

  abbrev linked_kids : ℕ → List ℕ
  linked_kids = update (update v.kids n []) parent (n ∷ v.kids parent)

  first_of :
      (d : ℕ)
      → linked.first_child d ≡ (if parent == d then n else if n == d then 0 else fs.first_child d)
  unfolding link_child
  first_of d = refl

  of_new :
      (linked.node_type n ≡ kind)
      × (linked.parent n ≡ parent)
      × (linked.next_sibling n ≡ fs.first_child parent)
      × (linked.name n ≡ fs_copy_name12_lower token)
  unfolding link_child
  of_new = rw (eq→== n n refl, ne→==-false n parent (live_ne live)) (refl, refl, refl, refl)

  of_parent : Kids linked parent n (n ∷ v.kids parent)
  of_parent = (
    refl,
    low,
    high,
    rw of_new.0 used,
    of_new.1,
    Kids-NotIn n fs parent (fs.first_child parent) (v.kids parent) unused
        (v.chains parent in_table live),
    subst (λ a. Kids linked parent a (v.kids parent)) (sym of_new.2)
        (Kids-frame fs linked parent (fs.first_child parent) (v.kids parent) kept
          (v.chains parent in_table live)),
  )

  IsLive-before : (d : ℕ) → n ≢ d → IsLive linked d → IsLive fs d
  unfolding link_child
  IsLive-before d ne u = rw (ne→==-false n d ne) at u

  chains_linked :
      (d : ℕ)
      → d < max_nodes
      → IsLive linked d
      → Kids linked d (linked.first_child d) (linked_kids d)
  chains_linked d b u = elim (ℕ_discrete parent d) [
    | yes e ↦
        rw (first_of d, eq→== parent d e)
          (subst (λ p. Kids linked p n (n ∷ v.kids parent)) e of_parent)
    | no ne ↦ elim (ℕ_discrete n d) [
      | yes e ↦ rw (first_of d, ne→==-false parent d ne, eq→== n d e) refl
      | no ne' ↦
          rw (first_of d, ne→==-false parent d ne, ne→==-false n d ne')
            (Kids-frame fs linked d (fs.first_child d) (v.kids d) kept
              (v.chains d b (IsLive-before d ne' u)))
    ]
  ]

  link_child-IsValid : IsValid linked
  link_child-IsValid = record {
    kids = linked_kids;
    root = IsLive-kept 0 v.root;
    chains = chains_linked;
  }

to_lower_twice : (c : ℕ) → to_lower_c (to_lower_c c) ≡ to_lower_c c
unfolding to_lower_c
to_lower_twice c = ground arith

copy_lower_twice : (m : ℕ) (s : List ℕ) → copy_lower m (copy_lower m s) ≡ copy_lower m s
unfolding copy_lower
copy_lower_twice zero s = refl
copy_lower_twice (suc m) [] = refl
copy_lower_twice (suc m) (c ∷ s) = rw (to_lower_twice c, copy_lower_twice m s)

strncmp_refl : (s : List ℕ) (n : ℕ) → is_zero (strncmp s s n) ≡ true
unfolding strncmp is_zero
strncmp_refl s zero = refl
strncmp_refl [] (suc n) = refl
strncmp_refl (c ∷ s) (suc n) = rw (eq→== c c refl) (strncmp_refl s n)

-- What creating a child of `parent` under `name` does.
pub record Created (kind : NodeType) (parent : ℕ) (name : List ℕ) (fs : Fs) (r : Bool × Fs)
    : Type 0 where
  pub valid : IsValid r.1
  pub refused : r.0 ≡ false → r.1 ≡ fs
  pub made :
      r.0 ≡ true
      → (n : ℕ) × (is_free (fs.node_type n) ≡ true)
        × (r.1.node_type n ≡ kind)
        × (r.1.parent n ≡ parent)
        × (fs_find_child parent (fs_copy_name12_lower name) r.1 ≡ some n)
        × ((l : List ℕ) × Kids fs parent (fs.first_child parent) l
            × Kids r.1 parent (r.1.first_child parent) (n ∷ l))

Created-nothing :
    (kind : NodeType) (parent : ℕ) (name : List ℕ) {fs : Fs}
    → IsValid fs
    → Created kind parent name fs (false, fs)
Created-nothing kind parent name v = record { valid = v; refused = λ e. refl; made = λ e. cc }

module _ (kind : NodeType) (used : is_free kind ≡ false) (parent : ℕ) (name : List ℕ) {fs : Fs}
    (v : IsValid fs) (in_table : parent < max_nodes) (live : IsLive fs parent) where
  abbrev token : List ℕ
  token = fs_copy_name12_lower name

  token_twice : fs_copy_name12_lower token ≡ token
  unfolding fs_copy_name12_lower
  token_twice = copy_lower_twice (name_len - 1) name

  linked-Created :
      (n : ℕ)
      → 0 < n
      → n < max_nodes
      → is_free (fs.node_type n) ≡ true
      → Created kind parent name fs (true, link_child kind n parent token fs)
  unfolding lookup_kids
  linked-Created n low high unused = record {
    valid = link_child-IsValid kind used n parent token v low high unused in_table live;
    refused = λ e. cc;
    made =
        λ e. (n, unused, new.0, new.1, found, (v.kids parent, v.chains parent in_table live, kids));
  }
    where
      g : Fs
      g = link_child kind n parent token fs

      new :
          (g.node_type n ≡ kind)
          × (g.parent n ≡ parent)
          × (g.next_sibling n ≡ fs.first_child parent)
          × (g.name n ≡ fs_copy_name12_lower token)
      new = of_new kind used n parent token v low high unused in_table live

      first : g.first_child parent ≡ n
      first =
          first_of kind used n parent token v low high unused in_table live parent
          ∙ rw (eq→== parent parent refl)

      kids : Kids g parent (g.first_child parent) (n ∷ v.kids parent)
      kids =
          subst (λ a. Kids g parent a (n ∷ v.kids parent)) (sym first)
            (of_parent kind used n parent token v low high unused in_table live)

      found : fs_find_child parent token g ≡ some n
      found =
          fs_find_child-Kids parent (n ∷ v.kids parent) token g kids
          ∙ ap some (rw (new.3, token_twice, strncmp_refl token name_len))

  take_node-Created : Created kind parent name fs (take_node kind parent token fs)
  unfolding take_node fs_alloc_node
  take_node-Created = elim (Bool-cases (alloc_from 63 1 fs == 0)) [
    | inl e ↦ rw e (Created-nothing kind parent name v)
    | inr e ↦
        let (low, high, unused) =
          alloc_from-free 63 1 fs (λ z. cc (e, eq→== (alloc_from 63 1 fs) 0 z)) in
        rw e (linked-Created (alloc_from 63 1 fs) (omega arith) (omega arith) unused)
  ]

  take_unless-Created :
      (m : ℕ)
      → (r : Bool × Fs) × (take_unless kind parent token fs (some m) ≡ some r)
        × Created kind parent name fs r
  unfolding take_unless
  take_unless-Created zero = (take_node kind parent token fs, refl, take_node-Created)
  take_unless-Created (suc m) = ((false, fs), refl, Created-nothing kind parent name v)

  create_named-Created :
      (t : List ℕ)
      → t ≡ token
      → (r : Bool × Fs) × (create_named kind parent t fs ≡ some r) × Created kind parent name fs r
  unfolding create_named
  create_named-Created [] e = ((false, fs), refl, Created-nothing kind parent name v)
  create_named-Created (c ∷ t) e =
      let (r, f, done) = take_unless-Created (lookup_kids fs token (v.kids parent)) in
      (r, rw (e, fs_find_child-lookup parent token v in_table live) f, done)

is_dir-IsLive : (t : NodeType) → is_dir_type t ≡ true → is_free t ≡ false
unfolding is_dir_type is_free
is_dir-IsLive free e = cc
is_dir-IsLive dir e = refl
is_dir-IsLive file e = refl

-- On a valid table creating a child ends for every parent and name, keeps the table valid, changes
-- nothing where it returns false; and where it returns true a free node has become a child of the
-- parent with the type asked for, in front of the parent's other children, and the search finds it
-- under the shortened lower-case name.
pub create_child-Created :
    (kind : NodeType) (parent : ℕ) (name : List ℕ) {fs : Fs}
    → is_free kind ≡ false
    → IsValid fs
    → (r : Bool × Fs) × (create_child kind parent name fs ≡ some r) × Created kind parent name fs r
unfolding create_child fs_is_dir
create_child-Created kind parent name {fs} used v = elim (Bool-cases (leb max_nodes parent)) [
  | inl e ↦ rw e ((false, fs), refl, Created-nothing kind parent name v)
  | inr e ↦ elim (Bool-cases (is_dir_type (fs.node_type parent))) [
    | inl d ↦
        rw (e, d)
          (create_named-Created kind used parent name v (leb-false max_nodes parent e)
            (is_dir-IsLive (fs.node_type parent) d) (fs_copy_name12_lower name) refl)
    | inr d ↦ rw (e, d) ((false, fs), refl, Created-nothing kind parent name v)
  ]
]
