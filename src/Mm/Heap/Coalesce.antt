-- ===== src/Mm/Heap/Coalesce.antt =====
-- `kfree` and `heap_coalesce` of src/kernel/mm.c on the list of blocks.
use heat_os.Prelude.{
  ℕ, zero, suc, ◌+◌, ◌≤◌, ◌<◌, ◌≡◌, refl, ap, ◌∙◌, sym, Bool, true, false, ◌&&◌, ◌||◌, List, [],
  ◌∷◌, arith, length, if◌then◌else◌, ◌==◌, Option, some, add32, sub32, update, Bool-cases, inl, inr,
  ne→==-false, eq→==, update_ne, subst, ==→eq,
}
use heat_os.Mm.Pmm.{heap_start}
use heat_os.Mm.Heap.{Block, Memory, Heap, header, heap_end, coalesce_from, with_coalesced}
use heat_os.Mm.Heap.Chain.{Span, span, Tiles, IsRoomy, IsHeap, extent-Tiles, Tiles-frame}

and_true : (a b : Bool) → (a && b && true) ≡ (a && b)
and_true a b = ground arith

-- One pass from the block `s` on: a free block swallows the free ones behind it.
unfoldable pub merge : Span → List Span → List Span
merge s [] = s ∷ []
merge s (t ∷ l) =
    let joined = merge (span (s.size + (header + t.size)) s.free) l in
    let apart = s ∷ merge t l in if s.free && t.free then joined else apart

unfoldable pub coalesce : List Span → List Span
coalesce [] = []
coalesce (s ∷ l) = merge s l

-- Whether the payload of one of the blocks from `at` on starts at `p`.
unfoldable pub has_block : ℕ → ℕ → List Span → Bool
has_block p at [] = false
has_block p at (s ∷ l) = (at + header == p) || has_block p (at + header + s.size) l

-- The block with payload address `p` marked free.
unfoldable pub mark_free : ℕ → ℕ → List Span → List Span
mark_free p at [] = []
mark_free p at (s ∷ l) =
    if at + header == p then span s.size true ∷ l else s ∷ mark_free p (at + header + s.size) l

-- The outcome of the pass: what `merge` says, in a memory that is unchanged below `at`.
pub record Merged (at ptr : ℕ) (spans : List Span) (m : Memory) (r : Option Memory) : Type 0 where
  pub mem : Memory
  pub result : r ≡ some mem
  pub tiles : Tiles mem at ptr spans
  pub below : (x : ℕ) → x < at → mem x ≡ m x

module _ (fuel at ptr : ℕ) (s t : Span) (l : List Span) (m : Memory) (pos : 0 < at)
    (tiles : Tiles m at ptr (s ∷ t ∷ l)) where
  abbrev joined_block : Block
  joined_block = record (m at) {
    size = add32 (m at).size (add32 header (m (m at).next).size);
    next = (m (m at).next).next;
  }

  abbrev behind : ℕ
  behind = at + header + s.size

  limit : behind + header + t.size ≤ heap_end
  limit = omega (arith, extent-Tiles m (behind + header + t.size) (m behind).next l tiles.3.3)

  next_lem : (m at).next ≡ behind
  next_lem = tiles.3.0

  joined_size : joined_block.size ≡ s.size + (header + t.size)
  joined_size =
      ap (λ n. add32 (m at).size (add32 header (m n).size)) next_lem
      ∙ omega (arith, limit, tiles.1, tiles.3.1)

  joined_Tiles :
      Tiles (update m at joined_block) at ptr (span (s.size + (header + t.size)) s.free ∷ l)
  joined_Tiles = rw (eq→== at at refl) (tiles.0, joined_size, tiles.2, rest)
    where
      rest :
          Tiles
            (update m at joined_block)
            (at + header + (s.size + (header + t.size)))
            (m (m at).next).next
            l
      rest =
          subst
            (λ n.
              Tiles (update m at joined_block) (at + header + (s.size + (header + t.size)))
                (m n).next l)
            (sym next_lem)
            (subst (λ a. Tiles (update m at joined_block) a (m behind).next l) (omega arith)
              (Tiles-frame (update m at joined_block) (behind + header + t.size) (m behind).next l
                (λ x le. update_ne m at x joined_block (λ w. omega arith)) tiles.3.3))

  adjacent : (add32 (add32 at header) (m at).size == (m at).next) ≡ true
  adjacent = eq→== _ _ (omega (arith, limit, tiles.1, next_lem))

  test_lem :
      ((m at).free && (m (m at).next).free && (add32 (add32 at header) (m at).size == (m at).next))
      ≡ (s.free && t.free)
  test_lem = rw adjacent (
      ap (λ n. (m at).free && (m n).free && true) next_lem
      ∙ rw (tiles.2, tiles.3.2) (and_true s.free t.free))

  not_null : (at == 0) ≡ false
  not_null = ne→==-false at 0 (λ w. omega arith)

  next_not_null : ((m at).next == 0) ≡ false
  next_not_null = ne→==-false (m at).next 0 (λ w. omega (arith, next_lem))

  step-joined :
      (s.free && t.free) ≡ true
      → coalesce_from (suc fuel) ptr m ≡ coalesce_from fuel ptr (update m at joined_block)
  unfolding coalesce_from
  step-joined e = rw (tiles.0, not_null, next_not_null, test_lem, e)

  step-apart :
      (s.free && t.free) ≡ false → coalesce_from (suc fuel) ptr m ≡ coalesce_from fuel (m at).next m
  unfolding coalesce_from
  step-apart e = rw (tiles.0, not_null, next_not_null, test_lem, e)

  Merged-joined :
      (s.free && t.free) ≡ true
      → Merged at ptr
          (merge (span (s.size + (header + t.size)) s.free) l)
          (update m at joined_block)
          (coalesce_from fuel ptr (update m at joined_block))
      → Merged at ptr (merge s (t ∷ l)) m (coalesce_from (suc fuel) ptr m)
  unfolding merge
  Merged-joined e rest = record {
    mem = rest.mem;
    result = step-joined e ∙ rest.result;
    tiles = rw e rest.tiles;
    below = λ x lt. rest.below x lt ∙ update_ne m at x joined_block (λ w. omega arith);
  }

  Merged-apart :
      (s.free && t.free) ≡ false
      → Merged behind (m at).next (merge t l) m (coalesce_from fuel (m at).next m)
      → Merged at ptr (merge s (t ∷ l)) m (coalesce_from (suc fuel) ptr m)
  unfolding merge
  Merged-apart e rest = record {
    mem = rest.mem;
    result = step-apart e ∙ rest.result;
    tiles = rw e (
      tiles.0,
      ap (λ b. b.size) kept ∙ tiles.1,
      ap (λ b. b.free) kept ∙ tiles.2,
      subst (λ q. Tiles rest.mem behind q (merge t l)) (ap (λ b. b.next) (sym kept)) rest.tiles,
    );
    below = λ x lt. rest.below x (omega arith);
  }
    where
      kept : rest.mem at ≡ m at
      kept = rest.below at (omega arith)

pub coalesce_from-Merged :
    (fuel at ptr : ℕ) (s : Span) (l : List Span) (m : Memory)
    → length l < fuel
    → 0 < at
    → Tiles m at ptr (s ∷ l)
    → Merged at ptr (merge s l) m (coalesce_from fuel ptr m)
unfolding coalesce_from merge
coalesce_from-Merged zero at ptr s l m h pos t = absurd (omega arith)
coalesce_from-Merged (suc fuel) at ptr s [] m h pos t = record {
  mem = m;
  result = rw (t.0, ne→==-false at 0 (λ w. omega arith), eq→== (m at).next 0 t.3.0);
  tiles = t;
  below = λ x lt. refl;
}
coalesce_from-Merged (suc fuel) at ptr s (u ∷ l) m h pos t = elim (Bool-cases (s.free && u.free)) [
  | inl e ↦ Merged-joined fuel at ptr s u l m pos t e (
      coalesce_from-Merged fuel at ptr (span (s.size + (header + u.size)) s.free) l
        (update m at (joined_block fuel at ptr s u l m pos t)) (omega arith) pos
        (joined_Tiles fuel at ptr s u l m pos t))
  | inr e ↦ Merged-apart fuel at ptr s u l m pos t e (
      coalesce_from-Merged fuel (at + header + s.size) (m at).next u l m (omega arith) (omega arith)
        t.3)
]

-- The header of the block whose payload is at `p`, marked free.
abbrev pub freeing : ℕ → Memory → Memory
freeing p m = update m (sub32 p header) (record (m (sub32 p header)) { free = true })

pub has_block_above : (p at : ℕ) (l : List Span) → has_block p at l ≡ true → at + header ≤ p
unfolding has_block
has_block_above p at [] e = cc
has_block_above p at (s ∷ l) e = ground (arith, has_block_above p (at + header + s.size) l)

pub freeing-Tiles :
    (p at ptr : ℕ) (l : List Span) (m : Memory)
    → p < heap_end
    → has_block p at l ≡ true
    → Tiles m at ptr l
    → Tiles (freeing p m) at ptr (mark_free p at l)
unfolding has_block mark_free
freeing-Tiles p at ptr [] m b e t = cc
freeing-Tiles p at ptr (s ∷ l) m b e t = elim (Bool-cases (at + header == p)) [
  | inl here ↦
      let q : sub32 p header ≡ at = omega (arith, ==→eq (at + header) p here) in
      let fr =
        Tiles-frame (freeing p m) (at + header + s.size) (m at).next l
          (λ x le. update_ne m (sub32 p header) x _ (λ w. omega arith)) t.3 in
      rw (here, q, eq→== at at refl) (t.0, t.1, refl, fr)
  | inr there ↦
      let e' : has_block p (at + header + s.size) l ≡ true = or_left (at + header == p) _ there e in
      let above = has_block_above p (at + header + s.size) l e' in
      let ne : (sub32 p header == at) ≡ false =
        ne→==-false (sub32 p header) at (λ w. omega arith) in
      rw (there, ne)
        (t.0, t.1, t.2, freeing-Tiles p (at + header + s.size) (m at).next l m b e' t.3)
]
  where
    or_left : (a c : Bool) → a ≡ false → (a || c) ≡ true → c ≡ true
    or_left a c f g = ground arith

pub with-Merged :
    (h : Heap) {l : List Span} (m : Memory) (r : Option Memory)
    → h.ready ≡ true
    → h.head ≡ heap_start
    → IsRoomy l
    → Merged heap_start heap_start l m r
    → (h' : Heap) × (with_coalesced h r ≡ some h') × IsHeap h' l
unfolding with_coalesced
with-Merged h m r ready head roomy g = (
  record h { mem = g.mem },
  rw g.result,
  record { ready = ready; head = head; tiles = g.tiles; roomy = roomy },
)

merge-IsRoomy : (s : Span) (l : List Span) → 8 ≤ s.size → IsRoomy l → IsRoomy (merge s l)
unfolding merge
merge-IsRoomy s [] r rs = (r, tt)
merge-IsRoomy s (t ∷ l) r (u, us) = elim (Bool-cases (s.free && t.free)) [
  | inl e ↦ rw e (merge-IsRoomy (span (s.size + (header + t.size)) s.free) l (omega arith) us)
  | inr e ↦ rw e (r, merge-IsRoomy t l u us)
]

pub coalesce-IsRoomy : (l : List Span) → IsRoomy l → IsRoomy (coalesce l)
unfolding coalesce
coalesce-IsRoomy [] r = r
coalesce-IsRoomy (s ∷ l) (r, rs) = merge-IsRoomy s l r rs

pub mark_free-IsRoomy : (p at : ℕ) (l : List Span) → IsRoomy l → IsRoomy (mark_free p at l)
unfolding mark_free
mark_free-IsRoomy p at [] r = r
mark_free-IsRoomy p at (s ∷ l) (r, rs) = elim (Bool-cases (at + header == p)) [
  | inl e ↦ rw e (r, rs)
  | inr e ↦ rw e (r, mark_free-IsRoomy p (at + header + s.size) l rs)
]
