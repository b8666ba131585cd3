-- ===== src/Mm/Heap/Release.antt =====
-- `kfree` of src/kernel/mm.c: what it does to the list of blocks, and `kmalloc` undone by it.
use heat_os.Prelude.{
  ℕ, ◌+◌, ◌≤◌, ◌<◌, ◌≡◌, refl, ap, ◌∙◌, true, List, [], ◌∷◌, arith, length, some, sub32,
  ne→==-false, lt→leb-false, le→ltb-false,
}
use heat_os.Mm.Pmm.{heap_start}
use heat_os.Mm.Heap.{
  Memory, Heap, header, heap_end, walk_fuel, coalesce_from, with_coalesced, kfree,
}
use heat_os.Mm.Heap.Chain.{Span, Tiles, IsRoomy, IsHeap, extent, extent-Tiles, length-walk_fuel}
use heat_os.Mm.Heap.Coalesce.{
  coalesce, has_block, mark_free, Merged, coalesce_from-Merged, freeing, freeing-Tiles, with-Merged,
  has_block_above, coalesce-IsRoomy, mark_free-IsRoomy,
}

pub has_block_below :
    (p at : ℕ) (l : List Span) → IsRoomy l → has_block p at l ≡ true → p < at + extent l
unfolding has_block extent
has_block_below p at [] r e = cc
has_block_below p at (s ∷ l) (r, rs) e =
    ground (arith, has_block_below p (at + header + s.size) l rs)

length-mark_free : (p at : ℕ) (l : List Span) → length (mark_free p at l) ≡ length l
unfolding mark_free
length-mark_free p at [] = refl
length-mark_free p at (s ∷ l) = ground (arith, length-mark_free p (at + header + s.size) l)

coalesce_head :
    (fuel : ℕ) (l : List Span) (m : Memory)
    → length l < fuel + 1
    → 0 < length l
    → Tiles m heap_start heap_start l
    → Merged heap_start heap_start (coalesce l) m (coalesce_from fuel heap_start m)
unfolding coalesce
coalesce_head fuel [] m h n t = absurd (omega arith)
coalesce_head fuel (s ∷ l) m h n t =
    coalesce_from-Merged fuel heap_start heap_start s l m (omega arith) (omega arith) t

has_block_some : (p at : ℕ) (l : List Span) → has_block p at l ≡ true → 0 < length l
unfolding has_block
has_block_some p at [] e = cc
has_block_some p at (s ∷ l) e = omega arith

kfree_body :
    (p : ℕ) (h : Heap)
    → h.ready ≡ true
    → heap_start + header ≤ p
    → p < heap_end
    → kfree p h ≡ with_coalesced h (coalesce_from walk_fuel h.head (freeing p h.mem))
unfolding kfree
kfree_body p h r low high = simp (
  r,
  ne→==-false p 0 (λ w. omega arith),
  le→ltb-false p (heap_start + header) low,
  lt→leb-false heap_end p high,
  le→ltb-false (sub32 p header) heap_start (omega arith),
  lt→leb-false heap_end (sub32 p header) (omega arith),
)

-- On a heap whose chain has the blocks `l`, freeing the payload address of one of them ends, marks
-- that block free and merges every run of free blocks.
pub kfree_refines :
    (p : ℕ) {h : Heap} {l : List Span}
    → IsHeap h l
    → has_block p heap_start l ≡ true
    → (h' : Heap) × (kfree p h ≡ some h') × IsHeap h' (coalesce (mark_free p heap_start l))
kfree_refines p {h} {l} is e =
    let (h', f, is') =
      with-Merged h (freeing p h.mem) (coalesce_from walk_fuel heap_start (freeing p h.mem))
        is.ready is.head
        (coalesce-IsRoomy (mark_free p heap_start l) (mark_free-IsRoomy p heap_start l is.roomy))
        (coalesce_head walk_fuel (mark_free p heap_start l) (freeing p h.mem) count some_block
          (freeing-Tiles p heap_start heap_start l h.mem below e is.tiles)) in
    (
      h',
      kfree_body p h is.ready (has_block_above p heap_start l e) below
          ∙ (ap (λ a. with_coalesced h (coalesce_from walk_fuel a (freeing p h.mem))) is.head ∙ f),
      is',
    )
  where
    below : p < heap_end
    below = omega (
      arith,
      has_block_below p heap_start l is.roomy e,
      extent-Tiles h.mem heap_start heap_start l is.tiles,
    )

    count : length (mark_free p heap_start l) < walk_fuel + 1
    count = omega (arith, length-mark_free p heap_start l, length-walk_fuel is)

    some_block : 0 < length (mark_free p heap_start l)
    some_block = omega (arith, length-mark_free p heap_start l, has_block_some p heap_start l e)
