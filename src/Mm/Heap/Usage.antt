-- ===== src/Mm/Heap/Usage.antt =====
-- `kheap_used_bytes` and `kheap_free_bytes` of src/kernel/mm.c account for the whole heap, and an
-- address that `kmalloc` returns has its bytes inside it.
use heat_os.Prelude.{
  ℕ, zero, suc, ◌+◌, ◌*◌, ◌^◌, ◌≤◌, ◌<◌, ◌≡◌, ◌≢◌, refl, ap, ◌∙◌, sym, Bool, true, false, ◌&&◌,
  ◌||◌, not, List, [], ◌∷◌, arith, if◌then◌else◌, leb, ltb, ◌==◌, some, Bool-cases, inl, inr,
  ne→==-false, eq→==, length, add32,
}
use heat_os.Mm.Pmm.{heap_start, heap_size}
use heat_os.Mm.Heap.{
  Memory, Heap, header, heap_end, sum_blocks, kheap_used_bytes, kheap_free_bytes, kmalloc,
  walk_fuel, heap_align8,
}
use heat_os.Mm.Heap.Chain.{Span, Tiles, IsHeap, extent, extent-Tiles, length-walk_fuel}
use heat_os.Mm.Heap.Fit.{fit, malloc_spec, kmalloc_refines}
use heat_os.Mm.Heap.Undo.{same_result}

-- The payload bytes of the blocks whose `free` is `wanted`.
pub payload : Bool → List Span → ℕ
payload wanted [] = 0
payload wanted (s ∷ l) =
    (if (if s.free then wanted else not wanted) then s.size else 0) + payload wanted l

sum_blocks-payload :
    (fuel : ℕ) (wanted : Bool) (at ptr total : ℕ) (l : List Span) (m : Memory)
    → length l < fuel
    → 0 < at
    → total + extent l < 2 ^ 32
    → Tiles m at ptr l
    → sum_blocks fuel wanted ptr total m ≡ some (total + payload wanted l)
unfolding sum_blocks payload extent
sum_blocks-payload zero wanted at ptr total l m h pos small t = absurd (omega arith)
sum_blocks-payload (suc fuel) wanted at ptr total [] m h pos small t =
    rw (eq→== ptr 0 t.0) (ap some (omega arith))
sum_blocks-payload (suc fuel) wanted at ptr total (s ∷ l) m h pos small t =
    rw (t.0, ne→==-false at 0 (λ w. omega arith), t.1, t.2)
      (sum_blocks-payload fuel wanted (at + header + s.size) (m at).next _ l m (omega arith)
          (omega arith) fits t.3
        ∙ ap some more)
  where
    counted : Bool
    counted = if s.free then wanted else not wanted

    fits : (if counted then add32 total s.size else total) + extent l < 2 ^ 32
    fits = ground arith

    more :
        (if counted then add32 total s.size else total) + payload wanted l
        ≡ total + ((if counted then s.size else 0) + payload wanted l)
    more = ground arith

payload_total : (l : List Span) → payload true l + payload false l + header * length l ≡ extent l
unfolding payload extent
payload_total [] = refl
payload_total (s ∷ l) = ground (arith, payload_total l)

-- On a heap the two counts end, and with the headers of its blocks they make up HEAP_SIZE.
pub kheap_bytes_total :
    {h : Heap} {l : List Span}
    → IsHeap h l
    → (kheap_used_bytes h ≡ some (payload false l))
      × (kheap_free_bytes h ≡ some (payload true l))
      × (payload true l + payload false l + header * length l ≡ heap_size)
unfolding kheap_used_bytes kheap_free_bytes
kheap_bytes_total {h} {l} is = (
  simp is.ready (counts false),
  simp is.ready (counts true),
  omega (arith, payload_total l, whole),
)
  where
    whole : heap_start + extent l ≡ heap_end
    whole = extent-Tiles h.mem heap_start heap_start l is.tiles

    counts : (wanted : Bool) → sum_blocks walk_fuel wanted h.head 0 h.mem ≡ some (payload wanted l)
    counts wanted = rw is.head (
        sum_blocks-payload walk_fuel wanted heap_start heap_start 0 l h.mem
          (omega (arith, length-walk_fuel is)) (omega arith) (omega (arith, whole)) is.tiles
        ∙ ap some (omega arith))

-- What first fit gives out lies behind a header and has its bytes below the end of the blocks.
fit_bounds :
    (need at : ℕ) (l : List Span)
    → (fit need at l).0 ≢ 0
    → (at + header ≤ (fit need at l).0) × ((fit need at l).0 + need ≤ at + extent l)
unfolding fit extent
fit_bounds need at [] ne = absurd (ne refl)
fit_bounds need at (s ∷ l) ne = elim (Bool-cases (s.free && leb need s.size)) [
  | inl e ↦ rw e (omega arith, ground arith)
  | inr e ↦
      let (low, high) = fit_bounds need (at + header + s.size) l (rw e at ne) in
      rw e (omega arith, omega arith)
]

align8_above :
    (size : ℕ) → size < 2 ^ 32 → (heap_align8 size == 0) ≡ false → size ≤ heap_align8 size
unfolding heap_align8
align8_above size h e = ground arith

bounds_at :
    (size : ℕ) {p : ℕ} (l : List Span)
    → size < 2 ^ 32
    → heap_start + extent l ≡ heap_end
    → p ≡ (malloc_spec size l).0
    → p ≢ 0
    → (heap_start + header ≤ p) × (p + size ≤ heap_end)
unfolding malloc_spec
bounds_at size {p} l small whole e ne = elim (Bool-cases bad) [
  | inl b ↦ absurd (ne (e ∙ rw b))
  | inr g ↦
      let e' : p ≡ (fit (heap_align8 size) heap_start l).0 = e ∙ rw g in
      let (low, high) = fit_bounds (heap_align8 size) heap_start l (λ z. ne (e' ∙ z)) in
      let up : size ≤ heap_align8 size = align8_above size small (middle _ _ _ g) in
      (omega arith, omega arith)
]
  where
    bad : Bool
    bad = (size == 0) || (heap_align8 size == 0) || ltb heap_size (heap_align8 size)

    middle : (a b c : Bool) → (a || b || c) ≡ false → b ≡ false
    middle a b c x = ground arith

-- An address that `kmalloc` returns, when it is not null, lies behind a header in the heap, and the
-- bytes asked for end inside the heap.
pub kmalloc_bounds :
    (size : ℕ) {p : ℕ} {h h' : Heap} {l : List Span}
    → size < 2 ^ 32
    → IsHeap h l
    → kmalloc size h ≡ some (p, h')
    → p ≢ 0
    → (heap_start + header ≤ p) × (p + size ≤ heap_end)
kmalloc_bounds size {p} {h} {h'} {l} small is e ne =
    let (k, f, is') = kmalloc_refines size is in
    bounds_at size l small whole (same_result (sym e ∙ f)).0 ne
  where
    whole : heap_start + extent l ≡ heap_end
    whole = extent-Tiles h.mem heap_start heap_start l is.tiles
