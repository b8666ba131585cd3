-- ===== src/Mm/Heap/Undo.antt =====
-- `kfree` behind `kmalloc`: the heap is as before; and a pass of `heap_coalesce` leaves no two free
-- blocks side by side.
use heat_os.Prelude.{
  ℕ, ◌+◌, ◌-◌, ◌≤◌, ◌≡◌, ◌≢◌, refl, ap, ◌∙◌, sym, Bool, true, false, ◌&&◌, ◌||◌, List, [], ◌∷◌,
  arith, leb, ltb, ◌==◌, Option, some, Bool-cases, inl, inr, ne→==-false, eq→==, subst, leb→le,
}
use heat_os.Mm.Pmm.{heap_start, heap_size}
use heat_os.Mm.Heap.{Heap, header, kfree, kmalloc, heap_align8}
use heat_os.Mm.Heap.Chain.{Span, span, IsHeap}
use heat_os.Mm.Heap.Fit.{fit, place, malloc_spec, kmalloc_refines}
use heat_os.Mm.Heap.Coalesce.{merge, coalesce, has_block, mark_free}
use heat_os.Mm.Heap.Release.{kfree_refines}

-- No two free blocks stand side by side.
abbrev pub IsMerged : List Span → Type 0
IsMerged [] = Unit
IsMerged (s ∷ []) = Unit
IsMerged (s ∷ t ∷ l) = ((s.free && t.free) ≡ false) × IsMerged (t ∷ l)

-- The first block, if there is one, has this `free`.
abbrev Starts : Bool → List Span → Type 0
Starts b [] = Unit
Starts b (s ∷ l) = s.free ≡ b

merge-Starts : (s : Span) (l : List Span) → Starts s.free (merge s l)
unfolding merge
merge-Starts s [] = refl
merge-Starts s (t ∷ l) = elim (Bool-cases (s.free && t.free)) [
  | inl e ↦ rw e (merge-Starts (span (s.size + (header + t.size)) s.free) l)
  | inr e ↦ rw e refl
]

IsMerged-cons :
    (s : Span) (b : Bool) (l : List Span)
    → (s.free && b) ≡ false
    → Starts b l
    → IsMerged l
    → IsMerged (s ∷ l)
IsMerged-cons s b [] e st m = tt
IsMerged-cons s b (t ∷ l) e st m = (rw st e, m)

merge-IsMerged : (s : Span) (l : List Span) → IsMerged (merge s l)
unfolding merge
merge-IsMerged s [] = tt
merge-IsMerged s (t ∷ l) = elim (Bool-cases (s.free && t.free)) [
  | inl e ↦ rw e (merge-IsMerged (span (s.size + (header + t.size)) s.free) l)
  | inr e ↦ rw e (IsMerged-cons s t.free (merge t l) e (merge-Starts t l) (merge-IsMerged t l))
]

pub coalesce-IsMerged : (l : List Span) → IsMerged (coalesce l)
unfolding coalesce
coalesce-IsMerged [] = tt
coalesce-IsMerged (s ∷ l) = merge-IsMerged s l

merge_fixed : (s : Span) (l : List Span) → IsMerged (s ∷ l) → merge s l ≡ s ∷ l
unfolding merge
merge_fixed s [] m = refl
merge_fixed s (t ∷ l) (e, m) = rw (e, merge_fixed t l m)

tail-IsMerged : (s : Span) (l : List Span) → IsMerged (s ∷ l) → IsMerged l
tail-IsMerged s [] m = tt
tail-IsMerged s (t ∷ l) m = m.1

merge-ne_nil : (s : Span) (l : List Span) → merge s l ≢ []
unfolding merge
merge-ne_nil s [] e = cc
merge-ne_nil s (t ∷ l) e = elim (Bool-cases (s.free && t.free)) [
  | inl j ↦ merge-ne_nil (span (s.size + (header + t.size)) s.free) l (rw j at e)
  | inr a ↦ let f : s ∷ merge t l ≡ [] = rw a at e in cc
]

-- A merged list behind a block that does not merge with its head.
merge_behind : (s : Span) (x l : List Span) → coalesce x ≡ l → IsMerged (s ∷ l) → merge s x ≡ s ∷ l
unfolding coalesce merge
merge_behind s [] l e m = ap (λ y. s ∷ y) e
merge_behind s (t ∷ x) l e m = rw apart (ap (λ y. s ∷ y) e)
  where
    first :
        (l : List Span)
        → Starts t.free l
        → IsMerged (s ∷ l)
        → merge t x ≡ l
        → (s.free && t.free) ≡ false
    first [] st m e = absurd (merge-ne_nil t x e)
    first (u ∷ l) st m e = rw (← st) m.0

    apart : (s.free && t.free) ≡ false
    apart = first l (subst (Starts t.free) e (merge-Starts t x)) m e

fit_above : (need at : ℕ) (l : List Span) → (fit need at l).0 ≢ 0 → at + header ≤ (fit need at l).0
unfolding fit
fit_above need at [] ne = absurd (ne refl)
fit_above need at (s ∷ l) ne = ground (arith, fit_above need (at + header + s.size) l)

module _ (need at : ℕ) (s : Span) (l : List Span) where
  abbrev next : ℕ
  next = at + header + s.size

  fit-hit : (s.free && leb need s.size) ≡ true → fit need at (s ∷ l) ≡ (at + header, place need s l)
  unfolding fit
  fit-hit e = rw e

  fit-miss :
      (s.free && leb need s.size) ≡ false
      → fit need at (s ∷ l) ≡ ((fit need next l).0, s ∷ (fit need next l).1)
  unfolding fit
  fit-miss e = rw e

  -- The block that was split off, or the whole block, is swallowed again.
  merge-place :
      (s.free && leb need s.size) ≡ true
      → IsMerged (s ∷ l)
      → coalesce (mark_free (at + header) at (place need s l)) ≡ s ∷ l
  unfolding coalesce mark_free place
  merge-place e m = elim (Bool-cases (leb (need + 20) s.size)) [
    | inl r ↦ rw (r, eq→== (at + header) (at + header) refl) (joined (leb→le (need + 20) s.size r))
    | inr r ↦
        rw (r, eq→== (at + header) (at + header) refl)
          (ap (λ b. merge (span s.size b) l) (sym free) ∙ merge_fixed s l m)
  ]
    where
      free : s.free ≡ true
      free = ground arith

      joined :
          need + 20 ≤ s.size
          → merge (span need true) (span (s.size - need - header) true ∷ l) ≡ s ∷ l
      joined r =
          unfold merge in
          (ap (λ n. merge (span n true) l) (omega arith)
            ∙ (ap (λ b. merge (span s.size b) l) (sym free) ∙ merge_fixed s l m))

has_block-fit :
    (need at : ℕ) (l : List Span)
    → (fit need at l).0 ≢ 0
    → has_block (fit need at l).0 at (fit need at l).1 ≡ true
unfolding has_block
has_block-fit need at [] ne = absurd (ne (unfold fit in refl))
has_block-fit need at (s ∷ l) ne = elim (Bool-cases (s.free && leb need s.size)) [
  | inl e ↦ rw (fit-hit need at s l e) (unfold place in ground arith)
  | inr e ↦
      let ih =
        has_block-fit need (at + header + s.size) l
          (subst (λ p. p.0 ≢ 0) (fit-miss need at s l e) ne) in
      rw (fit-miss need at s l e) (ground (arith, ih))
]

-- Marking the block that first fit took free again and merging gives the list back.
coalesce-mark_free-fit :
    (need at : ℕ) (l : List Span)
    → IsMerged l
    → (fit need at l).0 ≢ 0
    → coalesce (mark_free (fit need at l).0 at (fit need at l).1) ≡ l
unfolding coalesce mark_free
coalesce-mark_free-fit need at [] m ne = absurd (ne (unfold fit in refl))
coalesce-mark_free-fit need at (s ∷ l) m ne = elim (Bool-cases (s.free && leb need s.size)) [
  | inl e ↦ rw (fit-hit need at s l e) (merge-place need at s l e m)
  | inr e ↦
      let next : ℕ = at + header + s.size in
      let ne' : (fit need next l).0 ≢ 0 = subst (λ p. p.0 ≢ 0) (fit-miss need at s l e) ne in
      let other : (at + header == (fit need next l).0) ≡ false =
        ne→==-false (at + header) (fit need next l).0
          (λ w. omega (arith, fit_above need next l ne')) in
      rw (fit-miss need at s l e, other)
        (merge_behind s (mark_free (fit need next l).0 next (fit need next l).1) l
          (coalesce-mark_free-fit need next l (tail-IsMerged s l m) ne') m)
]

pub same_result :
    {p q : ℕ} {h k : Heap}
    → ◌≡◌ {A = Option (ℕ × Heap)} (some (p, h)) (some (q, k))
    → (p ≡ q) × (h ≡ k)
same_result e = (cc, cc)

undo_at :
    (size p : ℕ) {k : Heap} {l : List Span}
    → IsMerged l
    → p ≡ (malloc_spec size l).0
    → p ≢ 0
    → IsHeap k (malloc_spec size l).1
    → (h'' : Heap) × (kfree p k ≡ some h'') × IsHeap h'' l
unfolding malloc_spec
undo_at size p {k} {l} merged e ne is = elim (Bool-cases bad) [
  | inl b ↦ absurd (ne (e ∙ rw b))
  | inr g ↦
      let need : ℕ = heap_align8 size in
      let e' : p ≡ (fit need heap_start l).0 = e ∙ rw g in
      let is' : IsHeap k (fit need heap_start l).1 = rw g at is in
      let ne' : (fit need heap_start l).0 ≢ 0 = λ z. ne (e' ∙ z) in
      let (h'', f, done) =
        kfree_refines (fit need heap_start l).0 is' (has_block-fit need heap_start l ne') in
      (h'', rw e' f, subst (IsHeap h'') (coalesce-mark_free-fit need heap_start l merged ne') done)
]
  where
    bad : Bool
    bad = (size == 0) || (heap_align8 size == 0) || ltb heap_size (heap_align8 size)

-- A block that `kmalloc` gave out of a heap with no free neighbours, and that is freed at once, leaves
-- the heap with the blocks that it had.
pub kfree-kmalloc :
    (size p : ℕ) {h h' : Heap} {l : List Span}
    → IsHeap h l
    → IsMerged l
    → kmalloc size h ≡ some (p, h')
    → p ≢ 0
    → (h'' : Heap) × (kfree p h' ≡ some h'') × IsHeap h'' l
kfree-kmalloc size p {h} {h'} {l} is merged e ne =
    let (k, f, is') = kmalloc_refines size is in
    let (at_p, at_k) = same_result (sym e ∙ f) in
    undo_at size p merged at_p ne (subst (λ x. IsHeap x (malloc_spec size l).1) (sym at_k) is')
