-- ===== src/Scheduler/Create.antt =====
-- The ring of src/kernel/scheduler.c together with the heap that its structs lie in, and `create_process`.
use heat_os.Prelude.{
  ℕ, zero, suc, ◌<◌, ◌≡◌, ◌≢◌, refl, ap, ◌∙◌, sym, subst, Bool, true, Option, none, some, List, [],
  ◌∷◌, arith, inl, inr, ne→==-false, add32, sub32, update, update_self, update_ne, NotIn, IsIn,
  NotIn-both,
}
use heat_os.Mm.Pmm.{Pmm, heap_start, pmm_alloc_page}
use heat_os.Mm.Pmm.Count
use heat_os.Mm.Pmm.Alloc.{pmm_alloc_page-IsValid}
use heat_os.Mm.Heap.{Heap}
use heat_os.Mm.Heap.Chain.{Span, IsHeap}
use heat_os.Mm.Heap.Fit.{malloc_spec, kmalloc_refines}
use heat_os.Mm.Heap.Owned.{is_taken, IsFresh, malloc_spec-IsFresh, malloc_spec_none}
use heat_os.Scheduler.{
  Process, Sched, World, process_size, with_stack, with_struct, after_kmalloc, create_process,
}
use heat_os.Scheduler.Ring.{Chain, Chain-frame, Chain-stop, IsRing}

-- Every process of the ring lies in a block that the heap has given out, the heap has the blocks `spans`,
-- and the page allocator's counter is right.
pub record IsWorld (w : World) (spans : List Span) (l : List ℕ) : Type 0 where
  pub heap : IsHeap w.heap spans
  pub ring : IsRing w.sched l
  pub owned : (q : ℕ) → IsIn q (w.sched.process_list ∷ l) → is_taken q heap_start spans ≡ true
  pub pages : Count.IsValid w.pmm

NotIn-of : (p : ℕ) (l : List ℕ) → ((q : ℕ) → IsIn q l → p ≢ q) → NotIn p l
NotIn-of p [] h = tt
NotIn-of p (x ∷ l) h = (h x (inl refl), NotIn-of p l (λ q i. h q (inr i)))

-- A struct that no process of the ring has becomes the second of the ring.
pub insert-IsRing :
    (p : ℕ) (proc : Process) {s : Sched} {l : List ℕ}
    → 0 < p
    → ((q : ℕ) → IsIn q (s.process_list ∷ l) → p ≢ q)
    → proc.next ≡ (s.procs s.process_list).next
    → IsRing s l
    → IsRing
        (record s {
          procs =
              update
                (update s.procs p proc)
                s.process_list
                (record (update s.procs p proc s.process_list) { next = p });
        })
        (p ∷ l)
insert-IsRing p proc {s} {l} pos new next r = record {
  head = r.head;
  chain = (first, pos, new s.process_list (inl refl), NotIn-of p l (λ q i. new q (inr i)), behind);
  current = moved r.current;
}
  where
    head : Process
    head = record (update s.procs p proc s.process_list) { next = p }

    procs' : ℕ → Process
    procs' = update (update s.procs p proc) s.process_list head

    first : (procs' s.process_list).next ≡ p
    first = ap (λ x. x.next) (update_self (update s.procs p proc) s.process_list head)

    at_p : procs' p ≡ proc
    at_p =
        update_ne (update s.procs p proc) s.process_list p head
          (λ e. new s.process_list (inl refl) (sym e))
        ∙ update_self s.procs p proc

    kept : (q : ℕ) → IsIn q l → procs' q ≡ s.procs q
    kept q i =
        update_ne (update s.procs p proc) s.process_list q head (λ e.
          NotIn-both s.process_list l
            (Chain-stop s.procs s.process_list (s.procs s.process_list).next l r.chain)
            (subst (λ x. IsIn x l) (sym e) i))
        ∙ update_ne s.procs p q proc (new q (inr i))

    behind : Chain procs' s.process_list (procs' p).next l
    behind =
        subst (λ x. Chain procs' s.process_list x l) (sym (ap (λ x. x.next) at_p ∙ next))
          (Chain-frame s.procs procs' s.process_list (s.procs s.process_list).next l
            (λ q i. ap (λ x. x.next) (kept q i)) r.chain)

    moved :
        IsIn s.current_process (s.process_list ∷ l)
        → IsIn s.current_process (s.process_list ∷ p ∷ l)
    moved (inl e) = inl e
    moved (inr i) = inr (inr i)

-- What a call of `create_process` may do: refuse, with the ring as it was, or make a process with the next
-- pid the second of the ring, its struct at an address that no process had.
pub data Outcome (w : World) (spans : List Span) (l : List ℕ) : Option ℕ × World → Type 0 where
  refused : (w' : World) → IsWorld w' spans l → Outcome w spans l (none, w')
  made :
      (p : ℕ) (w' : World)
      → NotIn p (w.sched.process_list ∷ l)
      → IsWorld w' spans (p ∷ l)
      → (w'.sched.procs p).id ≡ w.sched.next_pid
      → Outcome w spans l (some w.sched.next_pid, w')

-- The part behind a `kmalloc` that gave out the address `p`.
module _ (tx : ℕ → Bool) {w : World} {spans spans' : List Span} {l : List ℕ} (v : IsWorld w spans l)
    (h : Heap) (heap : IsHeap h spans') (p : ℕ) (pos : 0 < p)
    (fresh : IsFresh p heap_start spans spans') where
  new : (q : ℕ) → IsIn q (w.sched.process_list ∷ l) → p ≢ q
  new q i e =
      let taken : is_taken p heap_start spans ≡ true = rw e (v.owned q i) in
      cc (fresh.before, taken)

  abbrev named : Process
  named = record (w.sched.procs p) { id = w.sched.next_pid; state = 1 }

  abbrev numbered : World
  numbered = record w {
    heap = h;
    sched = record w.sched {
      procs = update w.sched.procs p named;
      next_pid = add32 w.sched.next_pid 1;
    };
  }

  numbered-same :
      (q : ℕ) → IsIn q (w.sched.process_list ∷ l) → numbered.sched.procs q ≡ w.sched.procs q
  numbered-same q i = update_ne w.sched.procs p q named (new q i)

  numbered-IsRing : IsRing numbered.sched l
  numbered-IsRing = record {
    head = v.ring.head;
    chain =
        subst (λ x. Chain numbered.sched.procs w.sched.process_list x l)
          (sym (ap (λ x. x.next) (numbered-same w.sched.process_list (inl refl))))
          (Chain-frame w.sched.procs numbered.sched.procs w.sched.process_list
            (w.sched.procs w.sched.process_list).next l
            (λ q i. ap (λ x. x.next) (numbered-same q (inr i))) v.ring.chain);
    current = v.ring.current;
  }

  stack-Outcome :
      (r : Option ℕ × Pmm)
      → Count.IsValid r.1
      → Outcome w spans' l (with_stack tx p w.sched.next_pid r numbered)
  unfolding with_stack
  stack-Outcome (none, pmm) m = refused _ (record {
    heap = heap;
    ring = numbered-IsRing;
    owned = λ q i. fresh.others q (v.owned q i);
    pages = m;
  })
  stack-Outcome (some a, pmm) m =
      made p _ (NotIn-of p (w.sched.process_list ∷ l) new)
        (record {
          heap = heap;
          ring = insert-IsRing p proc pos new refl numbered-IsRing;
          owned = owns;
          pages = m;
        })
        (ap (λ x. x.id) at_p ∙ ap (λ x. x.id) (update_self w.sched.procs p named))
    where
      proc : Process
      proc = record (numbered.sched.procs p) {
        esp = sub32 (add32 a 4096) 24;
        stack_base = a;
        next = (numbered.sched.procs w.sched.process_list).next;
      }

      before : ℕ → Process
      before = update numbered.sched.procs p proc

      at_p :
          update before w.sched.process_list (record (before w.sched.process_list) { next = p }) p
          ≡ proc
      at_p =
          update_ne before w.sched.process_list p
            (record (before w.sched.process_list) { next = p })
            (λ e. new w.sched.process_list (inl refl) (sym e))
          ∙ update_self numbered.sched.procs p proc

      owns : (q : ℕ) → IsIn q (w.sched.process_list ∷ p ∷ l) → is_taken q heap_start spans' ≡ true
      owns q (inl e) = fresh.others q (v.owned q (inl e))
      owns q (inr (inl e)) = rw e fresh.after
      owns q (inr (inr i)) = fresh.others q (v.owned q (inr i))

-- From a ring whose structs lie in the heap `create_process` ends. It refuses, with the same ring, or it
-- puts a process with the next pid behind the kernel's, whose struct lies in a block that nobody had; and
-- heap, ring and page allocator are in order again.
pub create_process-Outcome :
    (tx : ℕ → Bool) {w : World} {spans : List Span} {l : List ℕ}
    → IsWorld w spans l
    → (r : Option ℕ × World) × (create_process tx w ≡ some r)
      × Outcome w (malloc_spec process_size spans).1 l r
unfolding create_process after_kmalloc with_struct
create_process-Outcome tx {w} {spans} {l} v =
    let (h, e, is) = kmalloc_refines process_size v.heap in
    rw e (
      with_struct tx (malloc_spec process_size spans).0 (record w { heap = h }),
      refl,
      outcome (malloc_spec process_size spans).0 (malloc_spec process_size spans).1 h is refl refl,
    )
  where
    outcome :
        (p : ℕ) (spans' : List Span) (h : Heap)
        → IsHeap h spans'
        → (malloc_spec process_size spans).0 ≡ p
        → (malloc_spec process_size spans).1 ≡ spans'
        → Outcome w spans' l (with_struct tx p (record w { heap = h }))
    outcome zero spans' h is a b = refused _ (record {
      heap = is;
      ring = v.ring;
      owned =
          subst (λ t. (q : ℕ) → IsIn q (w.sched.process_list ∷ l) → is_taken q heap_start t ≡ true)
            (sym (malloc_spec_none process_size spans a) ∙ b) v.owned;
      pages = v.pages;
    })
    outcome (suc p) spans' h is a b =
        rw
          (
            ne→==-false (suc p) 0 (λ z. omega arith),
            ne→==-false w.sched.process_list 0 (λ z. omega (arith, v.ring.head)),
          )
          (stack-Outcome tx v h is (suc p) (omega arith) (rw a at (rw b at fresh))
            (pmm_alloc_page w.pmm) (pmm_alloc_page-IsValid v.pages))
      where
        fresh :
            IsFresh
              (malloc_spec process_size spans).0
              heap_start
              spans
              (malloc_spec process_size spans).1
        fresh = malloc_spec-IsFresh process_size spans (λ z. omega arith)
