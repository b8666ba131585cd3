-- ===== src/Mm/Pmm/Cycle.antt =====
-- The page allocator over several calls: `pmm_init`, exhaustion, and an allocation given back.
use native.Mathlib.Decide.{dec_lt, ℕ_discrete}
use heat_os.Prelude.{
  ℕ, zero, suc, ◌+◌, ◌-◌, ◌/◌, ◌≤◌, ◌<◌, ◌^◌, min, ◌≡◌, ◌∙◌, refl, sym, false, Option, none, some,
  ◌↔◌, arith, ne→==-false, eq→==, add32, mul32, subst,
}
use heat_os.Mm.Pmm.{
  Pmm, page_size, pmm_bitmap_set, pmm_bitmap_clear, pmm_bitmap_test, pmm_alloc_page, pmm_free_page,
  pmm_init, at_least_page, reserved_pages, reset_pages, clear_from, fill_ones,
}
use heat_os.Mm.Pmm.Bits.{IsBytes, test-clear_page, clear_page-IsBytes}
use heat_os.Mm.Pmm.Count.{IsValid, used_pages, TakenIn, used_bound, used_pages-le}
use heat_os.Mm.Pmm.Alloc.{
  FirstFree, full, page, taking, AllUsed, IsOwned, pmm_alloc_page-FirstFree, pmm_alloc_page-IsValid,
  pmm_free_page-Freed, taking-TakenIn,
}

-- The bits and the counter of two allocators agree.
pub record SamePages (p q : Pmm) : Type 0 where
  pub bits : (j : ℕ) → pmm_bitmap_test j p ≡ pmm_bitmap_test j q
  pub used : p.used_blocks ≡ q.used_blocks

used_pages-AllUsed : (p : Pmm) (i n : ℕ) → AllUsed p i (i + n) → used_pages p i n ≡ n
unfolding used_pages
used_pages-AllUsed p i zero all = refl
used_pages-AllUsed p i (suc n) all =
    rw (all i (omega arith) (omega arith))
      (omega (arith, used_pages-AllUsed p (suc i) n (λ k l u. all k (omega arith) (omega arith))))

-- A free page in the range leaves the count below the range's length.
used_pages-lt :
    (p : Pmm) (b i n : ℕ) → i ≤ b → b < i + n → pmm_bitmap_test b p ≡ false → used_pages p i n < n
unfolding used_pages
used_pages-lt p b i zero l u free = absurd (omega arith)
used_pages-lt p b i (suc n) l u free = elim (dec_lt i b) [
  | yes lt ↦ ground (arith, used_pages-lt p b (suc i) n lt)
  | no ge ↦ let e : i ≡ b = omega arith in rw (e, free) (omega (arith, used_pages-le p (suc b) n))
]

exhausted :
    {p : Pmm} {r : Option ℕ × Pmm}
    → IsValid p
    → FirstFree p p.reserved_blocks p.max_blocks r
    → (r.0 ≡ none) ↔ (p.used_blocks ≡ p.max_blocks)
exhausted {p} v (full all) = (
  λ _. omega (
    arith,
    used_pages-AllUsed p p.reserved_blocks (p.max_blocks - p.reserved_blocks)
        (λ k l u. all k l (omega (arith, v.order))),
  ),
  λ _. refl,
)
exhausted {p} v (page b l u free all) = (
  λ e. cc,
  λ e. absurd (
      omega (
        arith,
        used_pages-lt p b p.reserved_blocks (p.max_blocks - p.reserved_blocks) l (omega arith) free,
      )),
)

-- `pmm_alloc_page` fails exactly when the counter says that every page is in use.
pub pmm_alloc_page-none :
    {p : Pmm} → IsValid p → ((pmm_alloc_page p).0 ≡ none) ↔ (p.used_blocks ≡ p.max_blocks)
pmm_alloc_page-none v = exhausted v (pmm_alloc_page-FirstFree v)

page_of : (b : ℕ) → b < 2 ^ 20 → mul32 b page_size / page_size ≡ b
page_of b h = omega arith

taking-IsOwned :
    {p : Pmm} (b : ℕ)
    → IsValid p
    → p.reserved_blocks ≤ b
    → b < p.max_blocks
    → TakenIn p (taking b p) b
    → IsOwned (taking b p) b
unfolding pmm_bitmap_set
taking-IsOwned b v l u t = record { above = l; below = u; taken = t.after }

given_back :
    {p q : Pmm} (b c : ℕ)
    → b ≡ c
    → TakenIn p (taking b p) b
    → TakenIn q (taking b p) c × (suc q.used_blocks ≡ add32 p.used_blocks 1)
    → p.used_blocks < 2 ^ 21
    → SamePages q p
given_back {p} {q} b c e t (u, n) small = record {
  bits = λ j. elim (ℕ_discrete b j) [
    | yes same ↦ rw (← same) ((rw (← e) at u.before) ∙ sym t.before)
    | no other ↦ sym (u.others j (λ w. other (e ∙ w))) ∙ t.others j other
  ];
  used = omega arith;
}

alloc-free_cases :
    {p : Pmm} {r : Option ℕ × Pmm}
    → FirstFree p p.reserved_blocks p.max_blocks r
    → IsValid p
    → IsValid r.1
    → (a : ℕ) → r.0 ≡ some a
    → SamePages (pmm_free_page a r.1) p
alloc-free_cases (full all) v w a e = cc
alloc-free_cases {p} (page b l u free all) v w a e =
    let t = taking-TakenIn b p v.bytes free in
    let at_b : a ≡ mul32 b page_size = cc in
    let same : b ≡ a / page_size = omega (arith, v.small) in
    let f = pmm_free_page-Freed a w in
    given_back b (a / page_size) same t
      (f.owned (subst (IsOwned (taking b p)) same (taking-IsOwned b v l u t)))
      (omega (arith, used_bound v, v.small))

-- A page that `pmm_alloc_page` gave out and that is given back at once leaves every bit of the bitmap
-- and the counter as they were.
pub free-alloc :
    {p : Pmm}
    → IsValid p
    → (a : ℕ) → (pmm_alloc_page p).0 ≡ some a
    → SamePages (pmm_free_page a (pmm_alloc_page p).1) p
free-alloc v a e = alloc-free_cases (pmm_alloc_page-FirstFree v) v (pmm_alloc_page-IsValid v) a e

clear_from-IsBytes : (n i : ℕ) (p : Pmm) → IsBytes p → IsBytes (clear_from n i p)
unfolding clear_from
clear_from-IsBytes zero i p v = v
clear_from-IsBytes (suc n) i p v =
    clear_from-IsBytes n (suc i) (pmm_bitmap_clear i p) (clear_page-IsBytes i p v)

cleared_below :
    (n i : ℕ) (p : Pmm)
    → IsBytes p
    → (j : ℕ) → j < i
    → pmm_bitmap_test j (clear_from n i p) ≡ pmm_bitmap_test j p
unfolding clear_from
cleared_below zero i p v j h = refl
cleared_below (suc n) i p v j h =
    cleared_below n (suc i) (pmm_bitmap_clear i p) (clear_page-IsBytes i p v) j (omega arith)
    ∙ rw (test-clear_page i j p v, ne→==-false i j (λ w. omega arith))

cleared_in :
    (n i : ℕ) (p : Pmm)
    → IsBytes p
    → (j : ℕ) → i ≤ j
    → j < i + n
    → pmm_bitmap_test j (clear_from n i p) ≡ false
unfolding clear_from
cleared_in zero i p v j l h = absurd (omega arith)
cleared_in (suc n) i p v j l h = elim (dec_lt i j) [
  | yes lt ↦
      cleared_in n (suc i) (pmm_bitmap_clear i p) (clear_page-IsBytes i p v) j lt (omega arith)
  | no ge ↦
      let e : j ≡ i = omega arith in
      rw e (
        cleared_below n (suc i) (pmm_bitmap_clear i p) (clear_page-IsBytes i p v) i (omega arith)
        ∙ rw (test-clear_page i i p v, eq→== i i refl))
]

clear_from_sizes :
    (n i : ℕ) (p : Pmm)
    → ((clear_from n i p).max_blocks ≡ p.max_blocks)
      × ((clear_from n i p).reserved_blocks ≡ p.reserved_blocks)
unfolding clear_from pmm_bitmap_clear
clear_from_sizes zero i p = (refl, refl)
clear_from_sizes (suc n) i p = clear_from_sizes n (suc i) (pmm_bitmap_clear i p)

used_pages-none :
    (p : Pmm) (i n : ℕ)
    → ((j : ℕ) → i ≤ j → j < i + n → pmm_bitmap_test j p ≡ false)
    → used_pages p i n ≡ 0
unfolding used_pages
used_pages-none p i zero free = refl
used_pages-none p i (suc n) free = rw (
  free i (omega arith) (omega arith),
  used_pages-none p (suc i) n (λ j a b. free j (omega arith) (omega arith)),
)

fill_ones-IsBytes :
    (max reserved : ℕ) (p : Pmm)
    → IsBytes p
    → (i : ℕ) → fill_ones (add32 max 7 / 8) p.bitmap i < 256
unfolding fill_ones
fill_ones-IsBytes max reserved p v i = ground (arith, v i)

module _ (max reserved : ℕ) (p : Pmm) (v : IsBytes p) (o : reserved ≤ max) where
  abbrev filled : Pmm
  filled = record {
    bitmap = fill_ones (add32 max 7 / 8) p.bitmap;
    max_blocks = max;
    used_blocks = p.used_blocks;
    reserved_blocks = reserved;
  }

  sizes :
      ((reset_pages max reserved p).max_blocks ≡ max)
      × ((reset_pages max reserved p).reserved_blocks ≡ reserved)
  unfolding reset_pages
  sizes = clear_from_sizes (max - reserved) reserved filled

  none_used :
      (j : ℕ) → reserved ≤ j → j < max → pmm_bitmap_test j (reset_pages max reserved p) ≡ false
  unfolding reset_pages pmm_bitmap_test
  none_used j l u =
      cleared_in (max - reserved) reserved filled (fill_ones-IsBytes max reserved p v) j l
        (omega arith)

  used_lem : (reset_pages max reserved p).used_blocks ≡ reserved
  unfolding reset_pages
  used_lem = refl

  reset-IsBytes : IsBytes (reset_pages max reserved p)
  unfolding reset_pages
  reset-IsBytes =
      clear_from-IsBytes (max - reserved) reserved filled (fill_ones-IsBytes max reserved p v)

  reset_pages-IsValid : 0 < reserved → max ≤ 2 ^ 20 → IsValid (reset_pages max reserved p)
  reset_pages-IsValid r m = record {
    bytes = reset-IsBytes;
    order = omega (arith, sizes.0, sizes.1);
    some_reserved = omega (arith, sizes.1);
    small = omega (arith, sizes.0);
    counted = omega (
      arith,
      used_lem,
      sizes.1,
      used_pages-none (reset_pages max reserved p) (reset_pages max reserved p).reserved_blocks
          ((reset_pages max reserved p).max_blocks - (reset_pages max reserved p).reserved_blocks)
          (λ j a b. none_used j (omega (arith, sizes.1)) (omega (arith, sizes.0, sizes.1))),
    );
  }

reserved_pages_lem :
    (mem : ℕ)
    → (reserved_pages mem ≤ mem / page_size) × (reserved_pages mem ≡ min 8192 (mem / page_size))
unfolding reserved_pages
reserved_pages_lem mem = (ground arith, ground arith)

at_least_page_lem :
    (mem_size : ℕ)
    → mem_size < 2 ^ 32
    → (page_size ≤ at_least_page mem_size) × (at_least_page mem_size < 2 ^ 32)
unfolding at_least_page
at_least_page_lem mem_size h = (ground arith, ground arith)

pub pmm_init-IsValid :
    (mem_size : ℕ) (p : Pmm)
    → mem_size < 2 ^ 32
    → IsBytes p
    → let q = pmm_init mem_size p in
      IsValid q
      × (q.used_blocks ≡ q.reserved_blocks)
      × (q.reserved_blocks ≡ min 8192 q.max_blocks)
      × (used_pages q q.reserved_blocks (q.max_blocks - q.reserved_blocks) ≡ 0)
unfolding pmm_init
pmm_init-IsValid mem_size p h v =
    let mem : ℕ = at_least_page mem_size in
    let (low, high) = at_least_page_lem mem_size h in
    let (o, r) = reserved_pages_lem mem in
    let s = sizes (mem / page_size) (reserved_pages mem) p v o in
    let q : Pmm = reset_pages (mem / page_size) (reserved_pages mem) p in
    let valid =
      reset_pages-IsValid (mem / page_size) (reserved_pages mem) p v o (omega arith)
        (omega arith) in
    let used = used_lem (mem / page_size) (reserved_pages mem) p v o ∙ sym s.1 in
    (valid, used, omega (arith, s.0, s.1), omega (arith, used, valid.counted))
