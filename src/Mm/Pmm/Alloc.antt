-- ===== src/Mm/Pmm/Alloc.antt =====
-- `pmm_alloc_page` and `pmm_free_page` of src/kernel/mm.c: which page is given out, what the bitmap
-- and the counters are after it.
use heat_os.Prelude.{
  ℕ, zero, suc, ◌+◌, ◌-◌, ◌/◌, ◌≤◌, ◌<◌, ◌≡◌, refl, sym, true, false, Option, none, some, ◌⊎◌,
  arith, Bool-cases, inl, inr, add32, mul32, lt→ltb,
}
use native.Mathlib.Decide.{dec_lt}
use heat_os.Mm.Pmm.{
  Pmm, page_size, pmm_bitmap_set, pmm_bitmap_clear, pmm_bitmap_test, alloc_from, pmm_alloc_page,
  pmm_free_page, release_block,
}
use heat_os.Mm.Pmm.Bits.{IsBytes, set_page-IsBytes, clear_page-IsBytes}
use heat_os.Mm.Pmm.Count.{
  IsValid, TakenIn, set_page-TakenIn, clear_page-TakenIn, used_bound, take_page-IsValid,
  give_page-IsValid,
}

-- The pages in `[i, j)` are all in use.
abbrev pub AllUsed : Pmm → ℕ → ℕ → Type 0
AllUsed p i j = (k : ℕ) → i ≤ k → k < j → pmm_bitmap_test k p ≡ true

-- The state after the page `b` was given out.
abbrev pub taking : ℕ → Pmm → Pmm
taking b p = record (pmm_bitmap_set b p) { used_blocks = add32 p.used_blocks 1 }

-- What an allocation does among the pages in `[i, stop)`: it takes the first free one, or fails and
-- leaves everything as it is.
pub data FirstFree (p : Pmm) (i stop : ℕ) : Option ℕ × Pmm → Type 0 where
  full : AllUsed p i stop → FirstFree p i stop (none, p)
  page :
      (b : ℕ)
      → i ≤ b
      → b < stop
      → pmm_bitmap_test b p ≡ false
      → AllUsed p i b
      → FirstFree p i stop (some (mul32 b page_size), taking b p)

earlier :
    {p : Pmm} {i stop : ℕ} {r : Option ℕ × Pmm}
    → pmm_bitmap_test i p ≡ true
    → FirstFree p (suc i) stop r
    → FirstFree p i stop r
earlier {p} {i} t (full all) = full (λ k l u. upto k l (λ lt. all k lt u))
  where
    upto : (k : ℕ) → i ≤ k → (suc i ≤ k → pmm_bitmap_test k p ≡ true) → pmm_bitmap_test k p ≡ true
    upto k l next = elim (dec_lt i k) [
      | yes lt ↦ next lt
      | no ge ↦ let e : k ≡ i = omega arith in rw e t
    ]
earlier {p} {i} t (page b l u free all) =
    page b (omega arith) u free (λ k lo hi. upto k lo (λ lt. all k lt hi))
  where
    upto : (k : ℕ) → i ≤ k → (suc i ≤ k → pmm_bitmap_test k p ≡ true) → pmm_bitmap_test k p ≡ true
    upto k l next = elim (dec_lt i k) [
      | yes lt ↦ next lt
      | no ge ↦ let e : k ≡ i = omega arith in rw e t
    ]

alloc_from-FirstFree :
    (n i stop : ℕ) (p : Pmm) → i + n ≡ stop → FirstFree p i stop (alloc_from n i p)
unfolding alloc_from
alloc_from-FirstFree zero i stop p e = full (λ k l u. absurd (omega arith))
alloc_from-FirstFree (suc n) i stop p e = elim (Bool-cases (pmm_bitmap_test i p)) [
  | inl t ↦ rw t (earlier t (alloc_from-FirstFree n (suc i) stop p (omega arith)))
  | inr f ↦ rw f (page i (omega arith) (omega arith) f (λ k l u. absurd (omega arith)))
]

-- `pmm_alloc_page` takes the first free page at or above the reserved ones, returns its address
-- and counts it; it fails exactly when all of them are in use, and then changes nothing.
pub pmm_alloc_page-FirstFree :
    {p : Pmm} → IsValid p → FirstFree p p.reserved_blocks p.max_blocks (pmm_alloc_page p)
unfolding pmm_alloc_page
pmm_alloc_page-FirstFree {p} v =
    alloc_from-FirstFree (p.max_blocks - p.reserved_blocks) p.reserved_blocks p.max_blocks p
      (omega (arith, v.order))

pub taking-TakenIn :
    (b : ℕ) (p : Pmm) → IsBytes p → pmm_bitmap_test b p ≡ false → TakenIn p (taking b p) b
unfolding pmm_bitmap_test
taking-TakenIn b p v free =
    let t = set_page-TakenIn p v b free in
    record { before = t.before; after = t.after; others = t.others }

FirstFree-IsValid :
    {p : Pmm} {r : Option ℕ × Pmm}
    → IsValid p
    → FirstFree p p.reserved_blocks p.max_blocks r
    → IsValid r.1
unfolding pmm_bitmap_set
FirstFree-IsValid v (full all) = v
FirstFree-IsValid {p} v (page b l u free all) =
    take_page-IsValid v.bytes (set_page-IsBytes b p v.bytes) (taking-TakenIn b p v.bytes free) refl
      refl l u (omega (arith, used_bound v)) v

-- `pmm_alloc_page` keeps the invariant: the counter is the number of pages in use.
pub pmm_alloc_page-IsValid : {p : Pmm} → IsValid p → IsValid (pmm_alloc_page p).1
pmm_alloc_page-IsValid v = FirstFree-IsValid v (pmm_alloc_page-FirstFree v)

-- A page that `pmm_free_page` may give back.
pub record IsOwned (p : Pmm) (block : ℕ) : Type 0 where
  pub above : p.reserved_blocks ≤ block
  pub below : block < p.max_blocks
  pub taken : pmm_bitmap_test block p ≡ true

-- What `pmm_free_page` does: an owned page is given back and the counter goes down by one; any other
-- address, a null pointer, a reserved page or one that is free already, changes nothing.
pub record Freed (p : Pmm) (addr : ℕ) (q : Pmm) : Type 0 where
  pub owned :
      IsOwned p (addr / page_size)
      → TakenIn q p (addr / page_size) × (suc q.used_blocks ≡ p.used_blocks)
  pub foreign : (IsOwned p (addr / page_size) → ⊥) → q ≡ p
  pub valid : IsValid q

release-TakenIn :
    (p : Pmm) (b : ℕ) → IsBytes p → pmm_bitmap_test b p ≡ true → TakenIn (release_block b p) p b
unfolding pmm_bitmap_test release_block
release-TakenIn p b v taken =
    let t = clear_page-TakenIn p v b taken in
    record { before = t.before; after = t.after; others = t.others }

used-release :
    (p : Pmm) (b : ℕ) → 0 < p.used_blocks → suc (release_block b p).used_blocks ≡ p.used_blocks
unfolding release_block pmm_bitmap_clear
used-release p b h = rw (lt→ltb 0 p.used_blocks h) (omega arith)

release-IsValid : {p : Pmm} {b : ℕ} → IsValid p → IsOwned p b → IsValid (release_block b p)
unfolding release_block pmm_bitmap_clear
release-IsValid {p} {b} v o =
    give_page-IsValid (clear_page-IsBytes b p v.bytes) v.bytes (release-TakenIn p b v.bytes o.taken)
      refl refl o.above o.below (sym (used-release p b (omega arith))) v

pub free_owned :
    {p : Pmm} (addr : ℕ)
    → IsValid p
    → IsOwned p (addr / page_size)
    → pmm_free_page addr p ≡ release_block (addr / page_size) p
unfolding pmm_free_page
free_owned {p} addr v o = ground arith

IsOwned-cases : (p : Pmm) (b : ℕ) → IsOwned p b ⊎ (IsOwned p b → ⊥)
IsOwned-cases p b = elim (dec_lt b p.reserved_blocks) [
  | yes low ↦ inr (λ o. omega (arith, o.above))
  | no in_low ↦ elim (dec_lt b p.max_blocks) [
    | yes below ↦ elim (Bool-cases (pmm_bitmap_test b p)) [
      | inl taken ↦ inl (record { above = omega arith; below = below; taken = taken })
      | inr free ↦ inr (λ o. cc (o.taken, free))
    ]
    | no high ↦ inr (λ o. omega (arith, o.below))
  ]
]

free_foreign : {p : Pmm} (addr : ℕ) → (IsOwned p (addr / page_size) → ⊥) → pmm_free_page addr p ≡ p
unfolding pmm_free_page
free_foreign {p} addr out = elim (dec_lt (addr / page_size) p.reserved_blocks) [
  | yes low ↦ ground arith
  | no in_low ↦ elim (dec_lt (addr / page_size) p.max_blocks) [
    | yes below ↦ elim (Bool-cases (pmm_bitmap_test (addr / page_size) p)) [
      | inl taken ↦ absurd (out (record { above = omega arith; below = below; taken = taken }))
      | inr free ↦ ground arith
    ]
    | no high ↦ ground arith
  ]
]

-- `pmm_free_page` gives back an owned page and counts it, changes nothing at any other address, and
-- keeps the invariant.
pub pmm_free_page-Freed : {p : Pmm} (addr : ℕ) → IsValid p → Freed p addr (pmm_free_page addr p)
pmm_free_page-Freed {p} addr v = record {
  owned = λ o. rw (free_owned addr v o) (
    release-TakenIn p (addr / page_size) v.bytes o.taken,
    used-release p (addr / page_size) (omega (arith, v.some_reserved, v.counted)),
  );
  foreign = free_foreign addr;
  valid = elim (IsOwned-cases p (addr / page_size)) [
    | inl o ↦ rw (free_owned addr v o) (release-IsValid v o)
    | inr out ↦ rw (free_foreign addr out) v
  ];
}
