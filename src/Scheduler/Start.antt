-- ===== src/Scheduler/Start.antt =====
-- `scheduler_init` of src/kernel/scheduler.c: the ring that the kernel starts with.
use heat_os.Prelude.{
  ℕ, zero, suc, ◌≡◌, ◌≢◌, refl, ap, true, some, List, [], ◌∷◌, arith, inl, inr, update_self, IsIn,
}
use heat_os.Mm.Pmm.{heap_start}
use heat_os.Mm.Pmm.Count
use heat_os.Mm.Heap.{Heap}
use heat_os.Mm.Heap.Chain.{Span, IsHeap}
use heat_os.Mm.Heap.Fit.{malloc_spec, kmalloc_refines}
use heat_os.Mm.Heap.Owned.{is_taken, malloc_spec-IsFresh}
use heat_os.Scheduler.{Process, World, process_size, start_with, scheduler_init}
use heat_os.Scheduler.Create.{IsWorld}

-- On a heap with room for a struct `scheduler_init` ends without a panic, with a ring of the kernel's
-- process alone, whose struct lies in the heap.
pub scheduler_init-IsWorld :
    (w : World) {spans : List Span}
    → IsHeap w.heap spans
    → Count.IsValid w.pmm
    → (malloc_spec process_size spans).0 ≢ 0
    → (w' : World) × (scheduler_init w ≡ some w') × IsWorld w' (malloc_spec process_size spans).1 []
unfolding scheduler_init start_with
scheduler_init-IsWorld w {spans} heap pages room =
    let (h, e, is) = kmalloc_refines process_size heap in
    rw e (
      started (malloc_spec process_size spans).0 h is room
        (malloc_spec-IsFresh process_size spans room).after)
  where
    started :
        (p : ℕ) (h : Heap)
        → IsHeap h (malloc_spec process_size spans).1
        → p ≢ 0
        → is_taken p heap_start (malloc_spec process_size spans).1 ≡ true
        → (w' : World) × (start_with w (some (p, h)) ≡ some w')
          × IsWorld w' (malloc_spec process_size spans).1 []
    started zero h is ne taken = absurd (ne refl)
    started (suc a) h is ne taken = (
      _,
      refl,
      record {
        heap = is;
        ring = record {
          head = omega arith;
          chain = ap (λ x. x.next) (update_self w.sched.procs (suc a) first);
          current = inl refl;
        };
        owned = owned;
        pages = pages;
      },
    )
      where
        first : Process
        first = record { id = 0; esp = 0; stack_base = 0; state = 1; next = suc a }

        owned :
            (q : ℕ)
            → IsIn q (suc a ∷ [])
            → is_taken q heap_start (malloc_spec process_size spans).1 ≡ true
        owned q (inl e) = rw e taken
        owned q (inr i) = absurd i
