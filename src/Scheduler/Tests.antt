-- ===== src/Scheduler/Tests.antt =====
-- Runs of src/kernel/scheduler.c from `scheduler_init` on.
use heat_os.Prelude.{
  ℕ, ◌+◌, ◌*◌, ◌-◌, ◌≤◌, ◌≡◌, ◌≢◌, refl, true, false, Option, some, List, [], ◌∷◌, arith, inl, inr,
  if◌then◌else◌, ◌==◌,
}
use heat_os.Mm.Pmm.{Pmm, heap_start, heap_size, pmm_bitmap_test, byte_test}
use heat_os.Mm.Pmm.Count
use heat_os.Mm.Pmm.Count.{used_pages}
use heat_os.Mm.Heap.{Heap, header, heap_init, heap_align8}
use heat_os.Mm.Heap.Chain.{Span, span, heap_init-IsHeap}
use heat_os.Mm.Heap.Fit.{malloc_spec, fit, place, kmalloc_refines}
use heat_os.Scheduler.{Process, Sched, World, process_size, create_process}
use heat_os.Scheduler.Ring.{IsRing, yields, yields-IsIn}
use heat_os.Scheduler.Create
use heat_os.Scheduler.Create.{IsWorld, create_process-Outcome}
use heat_os.Scheduler.Kill
use heat_os.Scheduler.Start.{scheduler_init-IsWorld}

abbrev no_heap : Heap
no_heap = record { head = 0; ready = false; mem = λ a. record { size = 0; next = 0; free = false } }

-- Two pages, the first of them reserved.
abbrev two_pages : Pmm
two_pages = record { bitmap = λ i. 1; max_blocks = 2; used_blocks = 1; reserved_blocks = 1 }

abbrev no_process : Process
no_process = record { id = 0; esp = 0; stack_base = 0; state = 0; next = 0 }

abbrev booted : World
booted = record {
  sched = record {
    procs = λ p. no_process;
    current_process = 0;
    process_list = 0;
    next_pid = 1;
    scheduler_ticks = 0;
  };
  heap = heap_init no_heap;
  pmm = two_pages;
  log = (
    record { ring = λ i. 0; head = 0; size = 0; lines = 0 },
    record { ready = true; reads = 0; sent = [] },
  );
}

abbrev one : List Span
one = span (heap_size - header) true ∷ []

two_pages-IsValid : Count.IsValid two_pages
two_pages-IsValid = record {
  bytes = λ i. omega arith;
  order = omega arith;
  some_reserved = omega arith;
  small = omega arith;
  counted = unfold used_pages pmm_bitmap_test byte_test in refl;
}

room : (malloc_spec process_size one).0 ≢ 0
unfolding malloc_spec fit place heap_align8
room e = omega arith

abbrev running : World
running = (scheduler_init-IsWorld booted (heap_init-IsHeap no_heap) two_pages-IsValid room).0

running-IsWorld : IsWorld running (malloc_spec process_size one).1 []
running-IsWorld =
    (scheduler_init-IsWorld booted (heap_init-IsHeap no_heap) two_pages-IsValid room).2

create_process-Outcome_example :
    (r : Option ℕ × World) × (create_process (λ n. true) running ≡ some r)
    × Create.Outcome running (malloc_spec process_size (malloc_spec process_size one).1).1 [] r
create_process-Outcome_example = create_process-Outcome (λ n. true) running-IsWorld

-- The heap with the structs of two processes.
abbrev both : List Span
both = (malloc_spec process_size (malloc_spec process_size one).1).1

abbrev first : ℕ
first = heap_start + 12

abbrev second : ℕ
second = heap_start + 56

-- Both pages in use, the second as the stack of a process.
abbrev both_pages : Pmm
both_pages = record { bitmap = λ i. 3; max_blocks = 2; used_blocks = 2; reserved_blocks = 1 }

abbrev busy : World
busy = record booted {
  sched = record {
    procs = λ p. record no_process {
      id = if p == second then 7 else 0;
      stack_base = if p == second then 4096 else 0;
      next = if p == second then first else second;
    };
    current_process = second;
    process_list = first;
    next_pid = 8;
    scheduler_ticks = 3;
  };
  heap =
      (kmalloc_refines process_size (kmalloc_refines process_size (heap_init-IsHeap no_heap)).2).0;
  pmm = both_pages;
}

-- Three processes at 8, 16 and 24.
abbrev next_of : ℕ → ℕ
next_of p = if p == 8 then 16 else if p == 16 then 24 else 8

abbrev three : Sched
three = record {
  procs = λ p. record no_process { id = p; next = next_of p };
  current_process = 24;
  process_list = 8;
  next_pid = 3;
  scheduler_ticks = 0;
}

three-IsRing : IsRing three (16 ∷ 24 ∷ [])
three-IsRing = record {
  head = omega arith;
  chain = (
    refl,
    omega arith,
    (λ e. omega arith),
    ((λ e. omega arith), tt),
    (refl, omega arith, (λ e. omega arith), tt, refl),
  );
  current = inr (inr (inl refl));
}

yields-IsIn_example : (k : ℕ) × (k ≤ 2 * 2 + 1) × ((yields k three).current_process ≡ 16)
yields-IsIn_example = yields-IsIn 16 three-IsRing (inr (inl refl))
