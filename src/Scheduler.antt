-- ===== src/Scheduler.antt =====
-- src/kernel/scheduler.c: the ring of processes, over the heap, the page allocator and the log. The structs
-- of the processes are a function from their addresses in the heap.
pub mod Ring
pub mod Create
pub mod Start
mod Tests
pub mod Removal
pub mod Search
pub mod Kill
use heat_os.Prelude.{
  ℕ, zero, suc, ◌+◌, ◌^◌, Bool, true, false, Option, none, some, List, [], ◌∷◌, ltb, ◌==◌, ◌||◌,
  if◌then◌else◌, update, add32, sub32,
}
use heat_os.Serial.{Serial}
use heat_os.Klog.{Klog, err, info, warn, klog_log, klog_log_u32}
use heat_os.Mm.Pmm.{Pmm, pmm_alloc_page, pmm_free_page}
use heat_os.Mm.Heap.{Heap, heap_end, kmalloc, kfree}

abbrev sched_name : List ℕ
sched_name = b's' ∷ b'c' ∷ b'h' ∷ b'e' ∷ b'd' ∷ []

abbrev no_struct : List ℕ
no_struct =
    b'c' ∷ b'r' ∷ b'e' ∷ b'a' ∷ b't' ∷ b'e' ∷ b'_' ∷ b'p' ∷ b'r' ∷ b'o' ∷ b'c' ∷ b'e' ∷ b's' ∷ b's'
    ∷ b' ' ∷ b'f' ∷ b'a' ∷ b'i' ∷ b'l' ∷ b'e' ∷ b'd' ∷ b':' ∷ b' ' ∷ b'n' ∷ b'o' ∷ b' ' ∷ b'p'
    ∷ b'r' ∷ b'o' ∷ b'c' ∷ b'e' ∷ b's' ∷ b's' ∷ b' ' ∷ b's' ∷ b't' ∷ b'r' ∷ b'u' ∷ b'c' ∷ b't'
    ∷ b' ' ∷ b'm' ∷ b'e' ∷ b'm' ∷ b'o' ∷ b'r' ∷ b'y' ∷ []

abbrev no_page : List ℕ
no_page =
    b'c' ∷ b'r' ∷ b'e' ∷ b'a' ∷ b't' ∷ b'e' ∷ b'_' ∷ b'p' ∷ b'r' ∷ b'o' ∷ b'c' ∷ b'e' ∷ b's' ∷ b's'
    ∷ b' ' ∷ b'f' ∷ b'a' ∷ b'i' ∷ b'l' ∷ b'e' ∷ b'd' ∷ b':' ∷ b' ' ∷ b'n' ∷ b'o' ∷ b' ' ∷ b'f'
    ∷ b'r' ∷ b'e' ∷ b'e' ∷ b' ' ∷ b'p' ∷ b'a' ∷ b'g' ∷ b'e' ∷ b' ' ∷ b'f' ∷ b'o' ∷ b'r' ∷ b' '
    ∷ b's' ∷ b't' ∷ b'a' ∷ b'c' ∷ b'k' ∷ []

abbrev created : List ℕ
created = b'c' ∷ b'r' ∷ b'e' ∷ b'a' ∷ b't' ∷ b'e' ∷ b'd' ∷ b' ' ∷ b'p' ∷ b'i' ∷ b'd' ∷ []

abbrev killed : List ℕ
killed = b'k' ∷ b'i' ∷ b'l' ∷ b'l' ∷ b'e' ∷ b'd' ∷ b' ' ∷ b'p' ∷ b'i' ∷ b'd' ∷ []

-- `process_t`; `ebp` and `eip`, which only `scheduler_init` writes, are left out.
pub record Process : Type 0 where
  pub id : ℕ
  pub esp : ℕ
  pub stack_base : ℕ
  pub state : ℕ
  pub next : ℕ

-- The statics of scheduler.c.
pub record Sched : Type 0 where
  pub procs : ℕ → Process
  pub current_process : ℕ
  pub process_list : ℕ
  pub next_pid : ℕ
  pub scheduler_ticks : ℕ

-- The state that the scheduler's calls change.
pub record World : Type 0 where
  pub sched : Sched
  pub heap : Heap
  pub pmm : Pmm
  pub log : Klog × Serial

-- `sizeof(process_t)`
abbrev process_size : ℕ
process_size = 28

-- The loop of `scheduler_count_internal`, which stops by itself once the count passes 4096.
unfoldable pub count_from : ℕ → ℕ → ℕ → Sched → ℕ
count_from zero count p s = count
count_from (suc fuel) count p s =
    let rest = count_from fuel (count + 1) (s.procs p).next s in
    if (p == 0) || (p == s.process_list)
    then count
    else if ltb 4096 (count + 1)
    then count + 1
    else rest

unfoldable pub scheduler_count_internal : Sched → ℕ
scheduler_count_internal s =
    if s.process_list == 0 then 0 else count_from 4097 1 (s.procs s.process_list).next s

-- `none` is the panic of a heap with no room, or a walk along the heap that does not end.
unfoldable pub start_with : World → Option (ℕ × Heap) → Option World
start_with w none = none
start_with w (some (zero, h)) = none
start_with w (some (suc a, h)) = some (record w {
  heap = h;
  sched = record w.sched {
    procs =
        update w.sched.procs (suc a)
          (record { id = 0; esp = 0; stack_base = 0; state = 1; next = suc a });
    current_process = suc a;
    process_list = suc a;
  };
})

unfoldable pub scheduler_init : World → Option World
scheduler_init w = start_with w (kmalloc process_size w.heap)

-- `create_process` from the page for the stack on, with the struct at `p`. The result is the new pid, or
-- `none` for -1. The six words on the new stack are not modelled.
unfoldable pub with_stack : (ℕ → Bool) → ℕ → ℕ → Option ℕ × Pmm → World → Option ℕ × World
with_stack tx p pid (none, pmm) w =
    (none, record w { pmm = pmm; log = klog_log tx err (some sched_name) (some no_page) w.log })
with_stack tx p pid (some stack, pmm) w =
    let s : Sched = w.sched in
    let proc : Process = record (s.procs p) {
      esp = sub32 (add32 stack 4096) 24;
      stack_base = stack;
      next = (s.procs s.process_list).next;
    } in
    let procs = update s.procs p proc in
    let head : Process = record (procs s.process_list) { next = p } in
    (
      some pid,
      record w {
        pmm = pmm;
        sched = record s { procs = update procs s.process_list head };
        log = klog_log_u32 tx info (some sched_name) (some created) pid 10 w.log;
      },
    )

unfoldable pub with_struct : (ℕ → Bool) → ℕ → World → Option ℕ × World
with_struct tx p w =
    let s : Sched = w.sched in
    let proc : Process = record (s.procs p) { id = s.next_pid; state = 1 } in
    let numbered : World = record w {
      sched = record s { procs = update s.procs p proc; next_pid = add32 s.next_pid 1 };
    } in
    if (p == 0) || (s.process_list == 0)
    then (none, record w { log = klog_log tx err (some sched_name) (some no_struct) w.log })
    else with_stack tx p s.next_pid (pmm_alloc_page w.pmm) numbered

unfoldable pub after_kmalloc : (ℕ → Bool) → World → Option (ℕ × Heap) → Option (Option ℕ × World)
after_kmalloc tx w none = none
after_kmalloc tx w (some (p, h)) = some (with_struct tx p (record w { heap = h }))

-- `none` is a walk along the heap that does not end.
unfoldable pub create_process : (ℕ → Bool) → World → Option (Option ℕ × World)
create_process tx w = after_kmalloc tx w (kmalloc process_size w.heap)

unfoldable pub yield : Sched → Sched
yield s =
    let next = (s.procs s.current_process).next in
    if (s.current_process == 0) || (s.current_process == next)
    then s
    else record s { current_process = next; scheduler_ticks = add32 s.scheduler_ticks 1 }

-- One entry of `scheduler_snapshot`: id, state, and whether it is the current process.
unfoldable pub snapshot_from : ℕ → ℕ → Sched → List (ℕ × ℕ × Bool)
snapshot_from zero p s = []
snapshot_from (suc room) p s =
    let next = (s.procs p).next in
    let rest = snapshot_from room next s in
    ((s.procs p).id, (s.procs p).state, p == s.current_process)
    ∷ (if (next == 0) || (next == s.process_list) then [] else rest)

-- `scheduler_snapshot` into an array of `max_count` entries.
unfoldable pub scheduler_snapshot : ℕ → Sched → List (ℕ × ℕ × Bool)
scheduler_snapshot max_count s =
    if s.process_list == 0 then [] else snapshot_from max_count s.process_list s

unfoldable pub scheduler_current_pid : Sched → ℕ
scheduler_current_pid s = if s.current_process == 0 then 0 else (s.procs s.current_process).id

-- The process at `cur` is taken out of the ring and given back.
unfoldable pub after_kfree : (ℕ → Bool) → ℕ → World → Option Heap → Option (Bool × World)
after_kfree tx pid w none = none
after_kfree tx pid w (some h) = some (
  true,
  record w { heap = h; log = klog_log_u32 tx warn (some sched_name) (some killed) pid 10 w.log },
)

unfoldable pub take_out : (ℕ → Bool) → ℕ → ℕ → ℕ → World → Option (Bool × World)
take_out tx pid prev cur w =
    let s : Sched = w.sched in
    let next = (s.procs cur).next in
    let base = (s.procs cur).stack_base in
    let head : Process = record (s.procs prev) { next = next } in
    let s' : Sched = record s {
      procs = update s.procs prev head;
      current_process =
          if s.current_process == cur
          then (if next == 0 then s.process_list else next)
          else s.current_process;
    } in
    let pmm = if base == 0 then w.pmm else pmm_free_page base w.pmm in
    after_kfree tx pid (record w { sched = s'; pmm = pmm }) (kfree cur w.heap)

-- The loop of `scheduler_kill`. `none` means that the fuel ran out, or a walk along the heap does not end.
unfoldable pub kill_from : ℕ → (ℕ → Bool) → ℕ → ℕ → ℕ → World → Option (Bool × World)
kill_from zero tx pid prev cur w = none
kill_from (suc fuel) tx pid prev cur w =
    let p : Process = w.sched.procs cur in
    let rest = kill_from fuel tx pid cur p.next w in
    if (cur == 0) || (cur == w.sched.process_list)
    then some (false, w)
    else if p.id == pid
    then take_out tx pid prev cur w
    else rest

-- The structs in the ring have distinct addresses below the end of the heap.
pub ring_fuel : ℕ
ring_fuel = heap_end + 1

unfoldable pub scheduler_kill : (ℕ → Bool) → ℕ → World → Option (Bool × World)
scheduler_kill tx pid w =
    let s : Sched = w.sched in
    if (s.process_list == 0) || (pid == 0)
    then some (false, w)
    else kill_from ring_fuel tx pid s.process_list (s.procs s.process_list).next w
