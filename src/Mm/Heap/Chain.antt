-- ===== src/Mm/Heap/Chain.antt =====
-- The chain of src/kernel/mm.c as a list of blocks that tile the heap.
use heat_os.Prelude.{
  ℕ, ◌+◌, ◌-◌, ◌*◌, ◌≤◌, ◌<◌, ◌≡◌, refl, Bool, true, List, [], ◌∷◌, arith, length,
}
use heat_os.Mm.Pmm.{heap_start, heap_size}
use heat_os.Mm.Heap.{Memory, Heap, header, heap_end, heap_init, walk_fuel}

-- A block without its pointer.
pub record Span : Type 0 where
  pub size : ℕ
  pub free : Bool

abbrev pub span : ℕ → Bool → Span
span n b = record { size = n; free = b }

-- From address `at` up to the end of the heap the memory is tiled by blocks with these spans; `ptr`
-- is the pointer that leads there, null behind the last block.
abbrev pub Tiles : Memory → ℕ → ℕ → List Span → Type 0
Tiles m at ptr [] = (ptr ≡ 0) × (at ≡ heap_end)
Tiles m at ptr (s ∷ l) =
    (ptr ≡ at)
    × ((m at).size ≡ s.size)
    × ((m at).free ≡ s.free)
    × Tiles m (at + header + s.size) (m at).next l

-- No block has a payload of less than eight bytes.
abbrev pub IsRoomy : List Span → Type 0
IsRoomy [] = Unit
IsRoomy (s ∷ l) = (8 ≤ s.size) × IsRoomy l

-- A heap that is set up and whose chain has the spans `l`.
pub record IsHeap (h : Heap) (l : List Span) : Type 0 where
  pub ready : h.ready ≡ true
  pub head : h.head ≡ heap_start
  pub tiles : Tiles h.mem heap_start heap_start l
  pub roomy : IsRoomy l

-- The bytes that blocks take, with their headers.
unfoldable pub extent : List Span → ℕ
extent [] = 0
extent (s ∷ l) = header + s.size + extent l

pub extent-Tiles :
    (m : Memory) (at ptr : ℕ) (l : List Span) → Tiles m at ptr l → at + extent l ≡ heap_end
unfolding extent
extent-Tiles m at ptr [] t = omega arith
extent-Tiles m at ptr (s ∷ l) (p, z, f, t) =
    omega (arith, extent-Tiles m (at + header + s.size) (m at).next l t)

pub length-extent : (l : List Span) → header * length l ≤ extent l
unfolding extent
length-extent [] = omega arith
length-extent (s ∷ l) = omega (arith, length-extent l)

-- The tiling from `at` on reads no header below `at`.
pub Tiles-frame :
    {m : Memory} (m' : Memory) (at ptr : ℕ) (l : List Span)
    → ((x : ℕ) → at ≤ x → m' x ≡ m x)
    → Tiles m at ptr l
    → Tiles m' at ptr l
Tiles-frame m' at ptr [] same t = t
Tiles-frame {m} m' at ptr (s ∷ l) same (p, z, f, t) =
    rw (same at (omega arith)) (
      p,
      z,
      f,
      Tiles-frame m' (at + header + s.size) (m at).next l (λ x le. same x (omega arith)) t,
    )

-- A heap has fewer blocks than the walks have rounds.
pub length-walk_fuel : {h : Heap} {l : List Span} → IsHeap h l → length l + 1 < walk_fuel
unfolding walk_fuel
length-walk_fuel {h} {l} is =
    omega (arith, extent-Tiles h.mem heap_start heap_start l is.tiles, length-extent l)

-- `heap_init` leaves one free block.
pub heap_init-IsHeap : (h : Heap) → IsHeap (heap_init h) (span (heap_size - header) true ∷ [])
unfolding heap_init
heap_init-IsHeap h = record {
  ready = refl;
  head = refl;
  tiles = (refl, refl, refl, (refl, refl));
  roomy = omega arith;
}
