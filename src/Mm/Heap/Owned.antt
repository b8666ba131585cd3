-- ===== src/Mm/Heap/Owned.antt =====
-- The taken blocks of the heap of src/kernel/mm.c: `kmalloc` gives out an address that nobody has, and no
-- call takes a block from another owner.
use heat_os.Prelude.{
  ℕ, ◌+◌, ◌-◌, ◌≤◌, ◌<◌, ◌≡◌, ◌≢◌, refl, ap, ◌∙◌, sym, subst, Bool, true, false, List, [], ◌∷◌,
  ◌==◌, ◌&&◌, ◌||◌, not, leb, ltb, arith, Bool-cases, inl, inr, eq→==, ne→==-false, ==→eq, leb→le,
}
use heat_os.Mm.Pmm.{heap_start, heap_size}
use heat_os.Mm.Heap.{header, heap_align8}
use heat_os.Mm.Heap.Chain.{Span, span}
use heat_os.Mm.Heap.Fit.{fit, place, malloc_spec}
use heat_os.Mm.Heap.Coalesce.{merge, coalesce, has_block, mark_free}

-- `p` is the payload address of a taken block among the blocks from `at` on.
unfoldable pub is_taken : ℕ → ℕ → List Span → Bool
is_taken p at [] = false
is_taken p at (s ∷ l) = ((at + header == p) && not s.free) || is_taken p (at + header + s.size) l

is_taken-above : (p at : ℕ) (l : List Span) → p < at + header → is_taken p at l ≡ false
unfolding is_taken
is_taken-above p at [] h = refl
is_taken-above p at (s ∷ l) h =
    rw (ne→==-false (at + header) p (λ e. omega arith))
      (is_taken-above p (at + header + s.size) l (omega arith))

pub is_taken-has_block :
    (p at : ℕ) (l : List Span) → is_taken p at l ≡ true → has_block p at l ≡ true
unfolding is_taken has_block
is_taken-has_block p at [] e = e
is_taken-has_block p at (s ∷ l) e = elim (Bool-cases (at + header == p)) [
  | inl here ↦ rw here refl
  | inr there ↦ rw there (is_taken-has_block p (at + header + s.size) l (rw there at e))
]

-- Under a free block a taken one lies further on.
is_taken-free :
    (p at : ℕ) (s : Span) (l : List Span)
    → s.free ≡ true
    → is_taken p at (s ∷ l) ≡ is_taken p (at + header + s.size) l
unfolding is_taken
is_taken-free p at s l f = elim (Bool-cases (at + header == p)) [
  | inl here ↦ rw (here, f) refl
  | inr there ↦ rw there refl
]

-- What happens behind the first block.
is_taken-cons :
    (q at : ℕ) (s : Span) (l l' : List Span)
    → (is_taken q (at + header + s.size) l ≡ true → is_taken q (at + header + s.size) l' ≡ true)
    → is_taken q at (s ∷ l) ≡ true
    → is_taken q at (s ∷ l') ≡ true
unfolding is_taken
is_taken-cons q at s l l' k e = elim (Bool-cases ((at + header == q) && not s.free)) [
  | inl here ↦ rw here refl
  | inr there ↦ rw there (k (rw there at e))
]

place-is_taken :
    (need q at : ℕ) (s : Span) (l : List Span)
    → need ≤ s.size
    → is_taken q (at + header + s.size) l ≡ true
    → is_taken q at (place need s l) ≡ true
unfolding place is_taken
place-is_taken need q at s l enough e = elim (Bool-cases (leb (need + 20) s.size)) [
  | inr whole ↦ rw whole (or_right _ e)
  | inl split ↦
      let same : at + header + s.size ≡ at + header + need + header + (s.size - need - header) =
        omega (arith, leb→le (need + 20) s.size split) in
      rw split (or_right _ (or_right _ (subst (λ a. is_taken q a l ≡ true) same e)))
]
  where
    or_right : (a : Bool) {b : Bool} → b ≡ true → (a || b) ≡ true
    or_right true e = refl
    or_right false e = e

place-taken :
    (need at : ℕ) (s : Span) (l : List Span) → is_taken (at + header) at (place need s l) ≡ true
unfolding place is_taken
place-taken need at s l = elim (Bool-cases (leb (need + 20) s.size)) [
  | inl split ↦ rw (split, eq→== (at + header) (at + header) refl) refl
  | inr whole ↦ rw (whole, eq→== (at + header) (at + header) refl) refl
]

-- What is given out was not taken and is taken then, and every taken block stays taken.
pub record IsFresh (p at : ℕ) (l l' : List Span) : Type 0 where
  pub before : is_taken p at l ≡ false
  pub after : is_taken p at l' ≡ true
  pub others : (q : ℕ) → is_taken q at l ≡ true → is_taken q at l' ≡ true

fit_above : (need at : ℕ) (l : List Span) → (fit need at l).0 ≢ 0 → at + header ≤ (fit need at l).0
unfolding fit
fit_above need at [] ne = absurd (ne refl)
fit_above need at (s ∷ l) ne = elim (Bool-cases (s.free && leb need s.size)) [
  | inl e ↦ rw e (omega arith)
  | inr e ↦ rw e (omega (arith, fit_above need (at + header + s.size) l (rw e at ne)))
]

fit-IsFresh :
    (need at : ℕ) (l : List Span)
    → (fit need at l).0 ≢ 0
    → IsFresh (fit need at l).0 at l (fit need at l).1
unfolding fit
fit-IsFresh need at [] ne = absurd (ne refl)
fit-IsFresh need at (s ∷ l) ne = elim (Bool-cases (s.free && leb need s.size)) [
  | inl e ↦ rw e (chosen (left _ _ e) (leb→le need s.size (right _ _ e)))
  | inr e ↦
      let rest = fit-IsFresh need (at + header + s.size) l (rw e at ne) in
      let far = fit_above need (at + header + s.size) l (rw e at ne) in rw e (passed _ _ far rest)
]
  where
    left : (a b : Bool) → (a && b) ≡ true → a ≡ true
    left a b h = ground arith

    right : (a b : Bool) → (a && b) ≡ true → b ≡ true
    right a b h = ground arith

    chosen : s.free ≡ true → need ≤ s.size → IsFresh (at + header) at (s ∷ l) (place need s l)
    chosen f enough = record {
      before =
          is_taken-free (at + header) at s l f
          ∙ is_taken-above (at + header) (at + header + s.size) l (omega arith);
      after = place-taken need at s l;
      others = λ q h. place-is_taken need q at s l enough (sym (is_taken-free q at s l f) ∙ h);
    }

    passed :
        (p : ℕ) (l' : List Span)
        → at + header + s.size + header ≤ p
        → IsFresh p (at + header + s.size) l l'
        → IsFresh p at (s ∷ l) (s ∷ l')
    passed p l' far rest = record {
      before = unfold is_taken in rw (ne→==-false (at + header) p (λ w. omega arith)) rest.before;
      after = unfold is_taken in rw (ne→==-false (at + header) p (λ w. omega arith)) rest.after;
      others = λ q h. is_taken-cons q at s l l' (rest.others q) h;
    }

-- The address that `kmalloc` gives out is that of a block that nobody had, and no block changes hands.
pub malloc_spec-IsFresh :
    (size : ℕ) (l : List Span)
    → (malloc_spec size l).0 ≢ 0
    → IsFresh (malloc_spec size l).0 heap_start l (malloc_spec size l).1
unfolding malloc_spec
malloc_spec-IsFresh size l ne =
    elim (Bool-cases ((size == 0) || (heap_align8 size == 0) || ltb heap_size (heap_align8 size))) [
      | inl e ↦ absurd (ne (rw e refl))
      | inr e ↦ rw e (fit-IsFresh (heap_align8 size) heap_start l (rw e at ne))
    ]

mark_free-is_taken :
    (p q at : ℕ) (l : List Span)
    → p ≢ q
    → is_taken q at l ≡ true
    → is_taken q at (mark_free p at l) ≡ true
unfolding mark_free is_taken
mark_free-is_taken p q at [] ne e = e
mark_free-is_taken p q at (s ∷ l) ne e = elim (Bool-cases (at + header == p)) [
  | inl here ↦
      let other : (at + header == q) ≡ false =
        ne→==-false (at + header) q (λ w. ne (sym (==→eq (at + header) p here) ∙ w)) in
      rw (here, other) (rw other at e)
  | inr there ↦ rw there (
      is_taken-cons q at s l (mark_free p (at + header + s.size) l)
        (mark_free-is_taken p q (at + header + s.size) l ne) e)
]

merge-is_taken :
    (q at : ℕ) (s : Span) (l : List Span)
    → is_taken q at (s ∷ l) ≡ true
    → is_taken q at (merge s l) ≡ true
unfolding merge
merge-is_taken q at s [] e = e
merge-is_taken q at s (t ∷ l) e = elim (Bool-cases (s.free && t.free)) [
  | inl both ↦ rw both (
      merge-is_taken q at (span (s.size + (header + t.size)) s.free) l
        (joined (left _ _ both) (right _ _ both)))
  | inr apart ↦
      rw apart
        (is_taken-cons q at s (t ∷ l) (merge t l) (merge-is_taken q (at + header + s.size) t l) e)
]
  where
    left : (a b : Bool) → (a && b) ≡ true → a ≡ true
    left a b h = ground arith

    right : (a b : Bool) → (a && b) ≡ true → b ≡ true
    right a b h = ground arith

    same : at + header + s.size + header + t.size ≡ at + header + (s.size + (header + t.size))
    same = omega arith

    joined :
        s.free ≡ true
        → t.free ≡ true
        → is_taken q at (span (s.size + (header + t.size)) s.free ∷ l) ≡ true
    joined f g =
        is_taken-free q at (span (s.size + (header + t.size)) s.free) l f
        ∙ subst (λ a. is_taken q a l ≡ true) same
            (sym (is_taken-free q (at + header + s.size) t l g)
              ∙ (sym (is_taken-free q at s (t ∷ l) f) ∙ e))

-- A call of `kfree` takes no other block from its owner.
pub coalesce-is_taken :
    (p q : ℕ) (l : List Span)
    → p ≢ q
    → is_taken q heap_start l ≡ true
    → is_taken q heap_start (coalesce (mark_free p heap_start l)) ≡ true
unfolding coalesce
coalesce-is_taken p q l ne e =
    merged (mark_free p heap_start l) (mark_free-is_taken p q heap_start l ne e)
  where
    merged :
        (l : List Span) → is_taken q heap_start l ≡ true → is_taken q heap_start (coalesce l) ≡ true
    merged [] e = e
    merged (s ∷ l) e = merge-is_taken q heap_start s l e

fit_none : (need at : ℕ) (l : List Span) → (fit need at l).0 ≡ 0 → (fit need at l).1 ≡ l
unfolding fit
fit_none need at [] e = refl
fit_none need at (s ∷ l) e = elim (Bool-cases (s.free && leb need s.size)) [
  | inl hit ↦ absurd (taken (rw hit at e))
  | inr miss ↦ rw miss (ap (λ t. s ∷ t) (fit_none need (at + header + s.size) l (rw miss at e)))
]
  where
    taken : at + header ≡ 0 → ⊥
    taken z = omega arith

-- A call of `kmalloc` that fails changes nothing.
pub malloc_spec_none :
    (size : ℕ) (l : List Span) → (malloc_spec size l).0 ≡ 0 → (malloc_spec size l).1 ≡ l
unfolding malloc_spec
malloc_spec_none size l z =
    elim (Bool-cases ((size == 0) || (heap_align8 size == 0) || ltb heap_size (heap_align8 size))) [
      | inl e ↦ rw e refl
      | inr e ↦ rw e (fit_none (heap_align8 size) heap_start l (rw e at z))
    ]
