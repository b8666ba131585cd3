-- ===== src/Mm/Pmm/Tests.antt =====
-- Runs of src/kernel/mm.c's page allocator on a machine with 33 MiB.
use heat_os.Prelude.{ℕ, ◌*◌, ◌^◌, ◌≡◌, refl, some, none, arith, ◌↔◌}
use heat_os.Mm.Pmm.{
  Pmm, pmm_init, pmm_alloc_page, pmm_free_page, alloc_from, pmm_bitmap_test, byte_test,
}
use heat_os.Mm.Pmm.Count.{IsValid, used_pages}
use heat_os.Mm.Pmm.Alloc.{
  FirstFree, Freed, pmm_alloc_page-FirstFree, pmm_alloc_page-IsValid, pmm_free_page-Freed,
}
use heat_os.Mm.Pmm.Cycle.{SamePages, free-alloc, pmm_init-IsValid, pmm_alloc_page-none}

abbrev memory_size : ℕ
memory_size = 33 * 2 ^ 20

abbrev off : Pmm
off = record { bitmap = λ i. 0; max_blocks = 0; used_blocks = 0; reserved_blocks = 0 }

abbrev ready : Pmm
ready = pmm_init memory_size off

ready-IsValid : IsValid ready
ready-IsValid = (pmm_init-IsValid memory_size off (omega arith) (λ i. omega arith)).0

-- Two pages, the first reserved and the second free.
abbrev small : Pmm
small = record { bitmap = λ i. 1; max_blocks = 2; used_blocks = 1; reserved_blocks = 1 }

small-IsValid : IsValid small
small-IsValid = record {
  bytes = λ i. omega arith;
  order = omega arith;
  some_reserved = omega arith;
  small = omega arith;
  counted = unfold used_pages pmm_bitmap_test byte_test in refl;
}

small_alloc : (pmm_alloc_page small).0 ≡ some 4096
unfolding pmm_alloc_page alloc_from pmm_bitmap_test byte_test
small_alloc = refl

pmm_alloc_page-FirstFree_example :
    FirstFree small small.reserved_blocks small.max_blocks (pmm_alloc_page small)
pmm_alloc_page-FirstFree_example = pmm_alloc_page-FirstFree small-IsValid

pmm_alloc_page-IsValid_example : IsValid (pmm_alloc_page small).1
pmm_alloc_page-IsValid_example = pmm_alloc_page-IsValid small-IsValid

pmm_free_page-Freed_example :
    Freed (pmm_alloc_page small).1 4096 (pmm_free_page 4096 (pmm_alloc_page small).1)
pmm_free_page-Freed_example = pmm_free_page-Freed 4096 (pmm_alloc_page-IsValid small-IsValid)

free-alloc_example : SamePages (pmm_free_page 4096 (pmm_alloc_page small).1) small
free-alloc_example = free-alloc small-IsValid 4096 small_alloc

pmm_alloc_page-none_example :
    ((pmm_alloc_page small).0 ≡ none) ↔ (small.used_blocks ≡ small.max_blocks)
pmm_alloc_page-none_example = pmm_alloc_page-none small-IsValid
