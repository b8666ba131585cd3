-- ===== src/Mm/Heap/Tests.antt =====
-- Runs of src/kernel/mm.c's heap, from `heap_init` on.
use heat_os.Prelude.{
  ◌+◌, ◌-◌, ◌*◌, ◌≤◌, ◌≡◌, ◌≢◌, refl, true, false, some, List, [], ◌∷◌, arith, length,
}
use heat_os.Mm.Pmm.{heap_start, heap_size}
use heat_os.Mm.Heap.{
  Block, Heap, header, heap_end, heap_align8, heap_init, kmalloc, kfree, kheap_used_bytes,
  kheap_free_bytes,
}
use heat_os.Mm.Heap.Chain.{Span, span, IsHeap, heap_init-IsHeap}
use heat_os.Mm.Heap.Fit.{fit, place, malloc_spec, kmalloc_refines}
use heat_os.Mm.Heap.Coalesce.{coalesce, has_block, mark_free}
use heat_os.Mm.Heap.Release.{kfree_refines}
use heat_os.Mm.Heap.Undo.{kfree-kmalloc}
use heat_os.Mm.Heap.Usage.{payload, kheap_bytes_total, kmalloc_bounds}

abbrev empty_block : Block
empty_block = record { size = 0; next = 0; free = false }

abbrev fresh : Heap
fresh = heap_init (record { head = 0; ready = false; mem = λ a. empty_block })

abbrev one : List Span
one = span (heap_size - header) true ∷ []

fresh-IsHeap : IsHeap fresh one
fresh-IsHeap = heap_init-IsHeap (record { head = 0; ready = false; mem = λ a. empty_block })

-- A request for 20 bytes takes the first 24 behind the first header.
malloc_20 : malloc_spec 20 one ≡ (heap_start + 12, span 24 false ∷ span (heap_size - 48) true ∷ [])
unfolding malloc_spec fit place heap_align8
malloc_20 = refl

abbrev taken : Heap
taken = (kmalloc_refines 20 fresh-IsHeap).0

abbrev two : List Span
two = (malloc_spec 20 one).1

has_first : has_block (heap_start + 12) heap_start two ≡ true
unfolding has_block malloc_spec fit place heap_align8
has_first = refl

address : (malloc_spec 20 one).0 ≢ 0
unfolding malloc_spec fit place heap_align8
address e = omega arith

kmalloc_refines_example :
    (h' : Heap) × (kmalloc 20 fresh ≡ some ((malloc_spec 20 one).0, h'))
    × IsHeap h' (malloc_spec 20 one).1
kmalloc_refines_example = kmalloc_refines 20 fresh-IsHeap

kfree_refines_example :
    (h' : Heap) × (kfree (heap_start + 12) taken ≡ some h')
    × IsHeap h' (coalesce (mark_free (heap_start + 12) heap_start two))
kfree_refines_example =
    kfree_refines (heap_start + 12) (kmalloc_refines 20 fresh-IsHeap).2 has_first

kfree-kmalloc_example :
    (h'' : Heap) × (kfree (malloc_spec 20 one).0 taken ≡ some h'') × IsHeap h'' one
kfree-kmalloc_example =
    kfree-kmalloc 20 (malloc_spec 20 one).0 fresh-IsHeap tt (kmalloc_refines 20 fresh-IsHeap).1
      address

kheap_bytes_total_example :
    (kheap_used_bytes fresh ≡ some (payload false one))
    × (kheap_free_bytes fresh ≡ some (payload true one))
    × (payload true one + payload false one + header * length one ≡ heap_size)
kheap_bytes_total_example = kheap_bytes_total fresh-IsHeap

kmalloc_bounds_example :
    (heap_start + header ≤ (malloc_spec 20 one).0) × ((malloc_spec 20 one).0 + 20 ≤ heap_end)
kmalloc_bounds_example =
    kmalloc_bounds 20 (omega arith) fresh-IsHeap (kmalloc_refines 20 fresh-IsHeap).1 address
