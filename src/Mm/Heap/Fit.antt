-- ===== src/Mm/Heap/Fit.antt =====
-- `kmalloc` of src/kernel/mm.c is first fit on the list of blocks.
use heat_os.Prelude.{
  ℕ, zero, suc, ◌+◌, ◌-◌, ◌≤◌, ◌<◌, ◌≡◌, refl, ap, ◌∙◌, sym, Bool, true, false, ◌&&◌, ◌||◌, List,
  [], ◌∷◌, arith, length, if◌then◌else◌, leb, ltb, ◌==◌, Option, some, add32, sub32, update,
  Bool-cases, inl, inr, ne→==-false, eq→==, update_ne, leb→le, leb-false, subst, ltb-false,
}
use heat_os.Mm.Pmm.{heap_start, heap_size}
use heat_os.Mm.Heap.{
  Memory, Heap, header, heap_end, walk_fuel, take_block, find_block, with_memory, kmalloc,
  heap_align8,
}
use heat_os.Mm.Heap.Chain.{
  Span, span, Tiles, IsRoomy, IsHeap, extent-Tiles, Tiles-frame, length-walk_fuel,
}

-- What a taken block becomes.
unfoldable pub place : ℕ → Span → List Span → List Span
place need s l =
    if leb (need + 20) s.size
    then span need false ∷ span (s.size - need - header) true ∷ l
    else span s.size false ∷ l

-- First fit among the blocks from address `at` on: the address given out (0 if there is none) and
-- the blocks after it.
unfoldable pub fit : ℕ → ℕ → List Span → ℕ × List Span
fit need at [] = (0, [])
fit need at (s ∷ l) =
    let (p, l') = fit need (at + header + s.size) l in
    if s.free && leb need s.size then (at + header, place need s l) else (p, s ∷ l')

-- The two shapes of the memory behind `take_block`, with no wrap-around.
abbrev split_memory : ℕ → ℕ → ℕ → ℕ → Memory → Memory
split_memory need split rest at m =
    update (update m split (record { size = rest; next = (m at).next; free = true })) at
      (record { size = need; next = split; free = false })

abbrev whole_memory : ℕ → Memory → Memory
whole_memory at m = update m at (record (m at) { free = false })

module _ (need at : ℕ) (m : Memory) (small : need ≤ heap_size)
    (low : at + header + (m at).size ≤ heap_end) where
  take_roomy :
      need + 20 ≤ (m at).size
      → take_block need at m
        ≡ split_memory need (at + header + need) ((m at).size - need - header) at m
  unfolding take_block
  take_roomy r = rw (enough, where_split, rest)
    where
      enough : leb (add32 (add32 need header) 8) (m at).size ≡ true
      enough = ground arith

      where_split : add32 (add32 at header) need ≡ at + header + need
      where_split = omega arith

      rest : sub32 (sub32 (m at).size need) header ≡ (m at).size - need - header
      rest = omega arith

  take_whole : (m at).size < need + 20 → take_block need at m ≡ whole_memory at m
  unfolding take_block
  take_whole r = rw tight
    where
      tight : leb (add32 (add32 need header) 8) (m at).size ≡ false
      tight = ground arith

-- Taking a block does to the tiling what `place` does to the spans, and touches no header below it.
module _ (need at : ℕ) (s : Span) (l : List Span) (m : Memory) (small : need ≤ heap_size)
    (enough : need ≤ s.size) (t : Tiles m at at (s ∷ l)) where
  end : at + header + s.size ≤ heap_end
  end = omega (arith, extent-Tiles m (at + header + s.size) (m at).next l t.3)

  same_at : (at == at) ≡ true
  same_at = eq→== at at refl

  split_Tiles :
      need + 20 ≤ s.size
      → Tiles
          (split_memory need (at + header + need) ((m at).size - need - header) at m)
          at
          at
          (span need false ∷ span (s.size - need - header) true ∷ l)
  split_Tiles r =
      let split : ℕ = at + header + need in
      let apart : (at == split) ≡ false = ne→==-false at split (λ w. omega arith) in
      rw (same_at, apart, eq→== split split refl)
        (refl, refl, refl, (refl, ap (λ n. n - need - header) t.1, refl, behind))
    where
      behind :
          Tiles
            (split_memory need (at + header + need) ((m at).size - need - header) at m)
            (at + header + need + header + (s.size - need - header))
            (m at).next
            l
      behind =
          subst
            (λ a.
              Tiles (split_memory need (at + header + need) ((m at).size - need - header) at m) a
                (m at).next l)
            (omega arith)
            (Tiles-frame (split_memory need (at + header + need) ((m at).size - need - header) at m)
              (at + header + s.size) (m at).next l
              (λ x le.
                update_ne (update m (at + header + need) _) at x _ (λ w. omega arith)
                ∙ update_ne m (at + header + need) x _ (λ w. omega arith))
              t.3)

  whole_Tiles : Tiles (whole_memory at m) at at (span s.size false ∷ l)
  whole_Tiles = rw same_at (
    refl,
    t.1,
    refl,
    Tiles-frame (whole_memory at m) (at + header + s.size) (m at).next l
        (λ x le. update_ne m at x _ (λ w. omega arith)) t.3,
  )

  take_block-place : Tiles (take_block need at m) at at (place need s l)
  unfolding place
  take_block-place = elim (Bool-cases (leb (need + 20) s.size)) [
    | inl r ↦
        let r' : need + 20 ≤ s.size = leb→le (need + 20) s.size r in
        rw r (
          subst (λ k. Tiles k at at (span need false ∷ span (s.size - need - header) true ∷ l))
            (sym (take_roomy need at m small (omega (arith, end, t.1)) (omega (arith, t.1))))
            (split_Tiles r'))
    | inr w ↦
        let w' : s.size < need + 20 = leb-false (need + 20) s.size w in
        rw w (
          subst (λ k. Tiles k at at (span s.size false ∷ l))
            (sym (take_whole need at m small (omega (arith, end, t.1)) (omega (arith, t.1))))
            whole_Tiles)
  ]

  take_block-below : (x : ℕ) → x < at → take_block need at m x ≡ m x
  take_block-below x h = elim (Bool-cases (leb (need + 20) s.size)) [
    | inl r ↦
        let r' : need + 20 ≤ s.size = leb→le (need + 20) s.size r in
        rw (take_roomy need at m small (omega (arith, end, t.1)) (omega (arith, t.1))) (
          update_ne (update m (at + header + need) _) at x _ (λ w. omega arith)
          ∙ update_ne m (at + header + need) x _ (λ w. omega arith))
    | inr w ↦
        let w' : s.size < need + 20 = leb-false (need + 20) s.size w in
        rw (take_whole need at m small (omega (arith, end, t.1)) (omega (arith, t.1)))
          (update_ne m at x _ (λ w. omega arith))
  ]

-- The outcome of the walk: what `fit` says, in a memory that is unchanged below `at`.
record Found (need at ptr : ℕ) (l : List Span) (m : Memory) (r : Option (ℕ × Memory)) : Type 0 where
  mem : Memory
  result : r ≡ some ((fit need at l).0, mem)
  tiles : Tiles mem at ptr (fit need at l).1
  below : (x : ℕ) → x < at → mem x ≡ m x

module _ (fuel need at ptr : ℕ) (s : Span) (l : List Span) (m : Memory) (small : need ≤ heap_size)
    (pos : 0 < at) (t : Tiles m at ptr (s ∷ l)) where
  from_at : Tiles m at at (s ∷ l)
  from_at = (refl, t.1, t.2, t.3)

  -- A tiling is led to by its own address.
  led : (k : Memory) (ks : List Span) → Tiles k at at ks → Tiles k at ptr ks
  led k ks u = subst (λ a. Tiles k at a ks) (sym t.0) u

  enough : (s.free && leb need s.size) ≡ true → need ≤ s.size
  enough e = ground arith

  Found-hit :
      (s.free && leb need s.size) ≡ true
      → Found need at ptr (s ∷ l) m (find_block (suc fuel) need ptr m)
  unfolding find_block fit
  Found-hit hit = record {
    mem = take_block need at m;
    result =
        rw (t.0, ne→==-false at 0 (λ w. omega arith), t.1, t.2, hit)
          (ap (λ p. some (p, take_block need at m)) no_wrap);
    tiles = rw hit (
        led (take_block need at m) (place need s l)
          (take_block-place need at s l m small (enough hit) from_at));
    below = take_block-below need at s l m small (enough hit) from_at;
  }
    where
      no_wrap : add32 at header ≡ at + header
      no_wrap = omega (arith, extent-Tiles m (at + header + s.size) (m at).next l t.3)

  Found-miss :
      (s.free && leb need s.size) ≡ false
      → Found need (at + header + s.size) (m at).next l m (find_block fuel need (m at).next m)
      → Found need at ptr (s ∷ l) m (find_block (suc fuel) need ptr m)
  unfolding find_block fit
  Found-miss miss rest = record {
    mem = rest.mem;
    result = rw (t.0, ne→==-false at 0 (λ w. omega arith), t.1, t.2, miss) rest.result;
    tiles = rw miss (t.0, ap (λ b. b.size) kept ∙ t.1, ap (λ b. b.free) kept ∙ t.2, behind);
    below = λ x lt. rest.below x (omega arith);
  }
    where
      kept : rest.mem at ≡ m at
      kept = rest.below at (omega arith)

      behind :
          Tiles rest.mem
            (at + header + s.size)
            (rest.mem at).next
            (fit need (at + header + s.size) l).1
      behind =
          subst (λ q. Tiles rest.mem (at + header + s.size) q (fit need (at + header + s.size) l).1)
            (ap (λ b. b.next) (sym kept)) rest.tiles

find_block-Found :
    (fuel need at ptr : ℕ) (l : List Span) (m : Memory)
    → need ≤ heap_size
    → 0 < at
    → length l < fuel
    → Tiles m at ptr l
    → Found need at ptr l m (find_block fuel need ptr m)
unfolding find_block fit
find_block-Found zero need at ptr l m small pos h t = absurd (omega arith)
find_block-Found (suc fuel) need at ptr [] m small pos h t = record {
  mem = m;
  result = rw (eq→== ptr 0 t.0);
  tiles = t;
  below = λ x lt. refl;
}
find_block-Found (suc fuel) need at ptr (s ∷ l) m small pos h t =
    elim (Bool-cases (s.free && leb need s.size)) [
      | inl hit ↦ Found-hit fuel need at ptr s l m small pos t hit
      | inr miss ↦ Found-miss fuel need at ptr s l m small pos t miss (
          find_block-Found fuel need (at + header + s.size) (m at).next l m small (omega arith)
            (omega arith) t.3)
    ]

-- `kmalloc` on the list of blocks: nothing for a size of 0, a size that wraps to 0 when it is
-- rounded up, or one above HEAP_SIZE.
unfoldable pub malloc_spec : ℕ → List Span → ℕ × List Span
malloc_spec size l =
    let need = heap_align8 size in
    if (size == 0) || (need == 0) || ltb heap_size need then (0, l) else fit need heap_start l

place-IsRoomy :
    (need : ℕ) (s : Span) (l : List Span)
    → 8 ≤ need
    → 8 ≤ s.size
    → IsRoomy l
    → IsRoomy (place need s l)
unfolding place
place-IsRoomy need s l n r rs = elim (Bool-cases (leb (need + 20) s.size)) [
  | inl e ↦ rw e (n, (omega (arith, leb→le (need + 20) s.size e), rs))
  | inr e ↦ rw e (r, rs)
]

fit-IsRoomy : (need at : ℕ) (l : List Span) → 8 ≤ need → IsRoomy l → IsRoomy (fit need at l).1
unfolding fit
fit-IsRoomy need at [] n r = r
fit-IsRoomy need at (s ∷ l) n (r, rs) = elim (Bool-cases (s.free && leb need s.size)) [
  | inl e ↦ rw e (place-IsRoomy need s l n r rs)
  | inr e ↦ rw e (r, fit-IsRoomy need (at + header + s.size) l n rs)
]

-- A size that is rounded up is a multiple of eight, so it is 0 or at least 8.
pub heap_align8_big : (size : ℕ) → (heap_align8 size == 0) ≡ false → 8 ≤ heap_align8 size
unfolding heap_align8
heap_align8_big size e = ground arith

with-Found :
    {h : Heap} {l : List Span} (need : ℕ)
    → IsHeap h l
    → 8 ≤ need
    → Found need heap_start heap_start l h.mem (find_block walk_fuel need h.head h.mem)
    → (h' : Heap) × (with_memory h (find_block walk_fuel need h.head h.mem)
        ≡ some ((fit need heap_start l).0, h'))
      × IsHeap h' (fit need heap_start l).1
unfolding with_memory
with-Found {h} {l} need is big f = (
  record h { mem = f.mem },
  rw f.result,
  record {
    ready = is.ready;
    head = is.head;
    tiles = f.tiles;
    roomy = fit-IsRoomy need heap_start l big is.roomy;
  },
)

-- On a heap whose chain has the blocks `l`, `kmalloc` ends, returns the address that first fit on `l`
-- gives, and leaves a heap whose chain has the blocks that first fit leaves.
pub kmalloc_refines :
    (size : ℕ) {h : Heap} {l : List Span}
    → IsHeap h l
    → (h' : Heap) × (kmalloc size h ≡ some ((malloc_spec size l).0, h'))
      × IsHeap h' (malloc_spec size l).1
unfolding kmalloc malloc_spec
kmalloc_refines size {h} {l} is = elim (Bool-cases (size == 0)) [
  | inl z ↦ simp (is.ready, z) (h, refl, is)
  | inr nz ↦ elim (Bool-cases ((heap_align8 size == 0) || ltb heap_size (heap_align8 size))) [
    | inl bad ↦ simp (is.ready, nz, bad) (h, refl, is)
    | inr good ↦
        simp (is.ready, nz, good)
          (with-Found (heap_align8 size) is (heap_align8_big size (or_left _ _ good))
            (find (ltb-false heap_size (heap_align8 size) (or_right _ _ good))))
  ]
]
  where
    find :
        heap_align8 size ≤ heap_size
        → Found
            (heap_align8 size)
            heap_start
            heap_start
            l
            h.mem
            (find_block walk_fuel (heap_align8 size) h.head h.mem)
    find small = rw is.head (
        find_block-Found walk_fuel (heap_align8 size) heap_start heap_start l h.mem small
          (omega arith) (omega (arith, length-walk_fuel is)) is.tiles)

    or_left : (a b : Bool) → (a || b) ≡ false → a ≡ false
    or_left a b e = ground arith

    or_right : (a b : Bool) → (a || b) ≡ false → b ≡ false
    or_right a b e = ground arith
