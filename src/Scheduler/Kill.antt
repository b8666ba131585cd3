-- ===== src/Scheduler/Kill.antt =====
-- `scheduler_kill` of src/kernel/scheduler.c: which process leaves the ring, and what becomes of its memory.
use heat_os.Prelude.{ℕ, ◌≡◌, ◌≢◌, Bool, true, false, some, List, ◌⊎◌, ◌==◌, if◌then◌else◌, IsIn}
use heat_os.Mm.Pmm.{Pmm, heap_start, pmm_free_page}
use heat_os.Mm.Pmm.Alloc.{Freed}
use heat_os.Mm.Heap.Chain.{Span}
use heat_os.Mm.Heap.Coalesce.{coalesce, mark_free}
use heat_os.Scheduler.{World}
use heat_os.Scheduler.Ring.{Chain}
use heat_os.Scheduler.Create.{IsWorld}
use heat_os.Scheduler.Removal.{Removed}
use heat_os.Scheduler.Search.{first_with, Search}

-- What a call of `scheduler_kill` does: nothing, where the pid is 0 or no process behind the kernel's has it; or
-- the first process with the pid leaves the ring, its block is marked free and its stack's page is freed, the
-- process behind it runs if it was running, and the rest is in order.
pub data Outcome (pid : ℕ) (w : World) (spans : List Span) (l : List ℕ)
    : Bool × World → Type 0 where
  spared :
      (pid ≡ 0) ⊎ ((q : ℕ) → IsIn q l → (w.sched.procs q).id ≢ pid)
      → Outcome pid w spans l (false, w)
  killed :
      (before cur : ℕ) (l' : List ℕ) (w' : World)
      → Removed w.sched.process_list l before cur l'
      → first_with w.sched.procs pid l ≡ some cur
      → Freed w.pmm (w.sched.procs cur).stack_base w'.pmm
      → w'.sched.current_process ≡ (
          if w.sched.current_process == cur
          then (w.sched.procs cur).next
          else w.sched.current_process)
      → IsWorld w' (coalesce (mark_free cur heap_start spans)) l'
      → Outcome pid w spans l (true, w')

module _ {w : World} {spans : List Span} {l : List ℕ} (v : IsWorld w spans l) where
  module _ (tx : ℕ → Bool) (pid before cur : ℕ) {l' : List ℕ}
      (r : Removed w.sched.process_list l before cur l') where
    abbrev next_running : ℕ
    next_running =
        if w.sched.current_process == cur
        then (if (w.sched.procs cur).next == 0
            then w.sched.process_list
            else (w.sched.procs cur).next)
        else w.sched.current_process

    abbrev pages_left : Pmm
    pages_left =
        if (w.sched.procs cur).stack_base == 0
        then w.pmm
        else pmm_free_page (w.sched.procs cur).stack_base w.pmm
