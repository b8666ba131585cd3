-- ===== src/Mm/Pmm/Count.antt =====
-- The number of used pages in a range, and the invariant of the page allocator.
use heat_os.Prelude.{
  ℕ, zero, suc, ◌+◌, ◌-◌, ◌≤◌, ◌<◌, ◌^◌, ◌≡◌, refl, ap₂, true, false, if◌then◌else◌, arith,
  ne→==-false, eq→==,
}
use native.Mathlib.Decide.{dec_lt}
use heat_os.Mm.Pmm.{Pmm, pmm_bitmap_set, pmm_bitmap_clear, pmm_bitmap_test}
use heat_os.Mm.Pmm.Bits.{IsBytes, test-set_page, test-clear_page}

-- The used ones among the `n` pages from `i` on.
unfoldable pub used_pages : Pmm → ℕ → ℕ → ℕ
used_pages p i zero = 0
used_pages p i (suc n) = (if pmm_bitmap_test i p then 1 else 0) + used_pages p (suc i) n

pub record IsValid (p : Pmm) : Type 0 where
  pub bytes : IsBytes p
  pub order : p.reserved_blocks ≤ p.max_blocks
  pub some_reserved : 0 < p.reserved_blocks
  pub small : p.max_blocks ≤ 2 ^ 20
  pub counted :
      p.used_blocks
      ≡ p.reserved_blocks + used_pages p p.reserved_blocks (p.max_blocks - p.reserved_blocks)

-- Two allocators that agree on the bits of the range count alike.
pub used_pages_same :
    (p q : Pmm) (i n : ℕ)
    → ((j : ℕ) → i ≤ j → j < i + n → pmm_bitmap_test j p ≡ pmm_bitmap_test j q)
    → used_pages p i n ≡ used_pages q i n
unfolding used_pages
used_pages_same p q i zero h = refl
used_pages_same p q i (suc n) h =
    ap₂ (λ b k. (if b then 1 else 0) + k) (h i (omega arith) (omega arith))
      (used_pages_same p q (suc i) n (λ j a b. h j (omega arith) (omega arith)))

pub used_pages-le : (p : Pmm) (i n : ℕ) → used_pages p i n ≤ n
unfolding used_pages
used_pages-le p i zero = omega arith
used_pages-le p i (suc n) = ground (arith, used_pages-le p (suc i) n)

-- One page more: `q` is `p` with the page `b` taken.
pub record TakenIn (p q : Pmm) (b : ℕ) : Type 0 where
  pub before : pmm_bitmap_test b p ≡ false
  pub after : pmm_bitmap_test b q ≡ true
  pub others : (j : ℕ) → (b ≡ j → ⊥) → pmm_bitmap_test j q ≡ pmm_bitmap_test j p

pub used_pages-TakenIn :
    {p q : Pmm} {b : ℕ} (i n : ℕ)
    → TakenIn p q b
    → i ≤ b
    → b < i + n
    → used_pages q i n ≡ suc (used_pages p i n)
unfolding used_pages
used_pages-TakenIn i zero t l u = absurd (omega arith)
used_pages-TakenIn {p} {q} {b} i (suc n) t l u = elim (dec_lt i b) [
  | yes lt ↦
      rw (t.others i (λ w. omega arith), used_pages-TakenIn (suc i) n t lt (omega arith))
        (omega arith)
  | no ge ↦
      let e : i ≡ b = omega arith in
      rw (e, t.before, t.after)
        (omega (arith, used_pages_same q p (suc b) n (λ j a c. t.others j (λ w. omega arith))))
]

module _ (p : Pmm) (v : IsBytes p) (b : ℕ) where
  pub set_page-TakenIn : pmm_bitmap_test b p ≡ false → TakenIn p (pmm_bitmap_set b p) b
  set_page-TakenIn free = record {
    before = free;
    after = rw (test-set_page b b p v, eq→== b b refl);
    others = λ j ne. rw (test-set_page b j p v, ne→==-false b j ne);
  }

  pub clear_page-TakenIn : pmm_bitmap_test b p ≡ true → TakenIn (pmm_bitmap_clear b p) p b
  clear_page-TakenIn taken = record {
    before = rw (test-clear_page b b p v, eq→== b b refl);
    after = taken;
    others = λ j ne. rw (test-clear_page b j p v, ne→==-false b j ne);
  }

-- Taking or giving back one page keeps the invariant.
module _ {p q : Pmm} {b : ℕ} (bytes : IsBytes p) (bytes' : IsBytes q) (t : TakenIn p q b)
    (same_max : q.max_blocks ≡ p.max_blocks) (same_reserved : q.reserved_blocks ≡ p.reserved_blocks)
    (above : p.reserved_blocks ≤ b) (below : b < p.max_blocks)
    (used : q.used_blocks ≡ suc p.used_blocks) where
  more :
      used_pages q p.reserved_blocks (p.max_blocks - p.reserved_blocks)
      ≡ suc (used_pages p p.reserved_blocks (p.max_blocks - p.reserved_blocks))
  more =
      used_pages-TakenIn p.reserved_blocks (p.max_blocks - p.reserved_blocks) t above (omega arith)

  range :
      used_pages q q.reserved_blocks (q.max_blocks - q.reserved_blocks)
      ≡ used_pages q p.reserved_blocks (p.max_blocks - p.reserved_blocks)
  range = ap₂ (used_pages q) same_reserved (omega arith)

  pub take_page-IsValid : IsValid p → IsValid q
  take_page-IsValid v = record {
    bytes = bytes';
    order = omega arith;
    some_reserved = omega arith;
    small = omega arith;
    counted = omega (arith, more, range);
  }

  pub give_page-IsValid : IsValid q → IsValid p
  give_page-IsValid v = record {
    bytes = bytes;
    order = omega arith;
    some_reserved = omega arith;
    small = omega arith;
    counted = omega (arith, more, range);
  }

pub used_bound : {p : Pmm} → IsValid p → p.used_blocks ≤ p.max_blocks
used_bound {p} v =
    omega (arith, used_pages-le p p.reserved_blocks (p.max_blocks - p.reserved_blocks))
