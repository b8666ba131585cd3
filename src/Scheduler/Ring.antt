-- ===== src/Scheduler/Ring.antt =====
-- The ring of processes of src/kernel/scheduler.c as a list, counting it, and going round it.
use heat_os.Prelude.{
  ℕ, zero, suc, ◌+◌, ◌*◌, ◌≤◌, ◌<◌, ◌≡◌, ◌≢◌, refl, ap, ◌∙◌, sym, List, [], ◌∷◌, ◌==◌, ◌||◌, ltb,
  arith, length, Bool-cases, inl, inr, eq→==, ne→==-false, ==→eq, ltb→lt, ltb-false, min, NotIn,
  IsIn,
}
use heat_os.Scheduler.{Process, Sched, count_from, scheduler_count_internal, yield}

-- From `p` the `next` pointers lead through the distinct structs `l` to `stop`.
abbrev pub Chain : (ℕ → Process) → ℕ → ℕ → List ℕ → Type 0
Chain procs stop p [] = p ≡ stop
Chain procs stop p (q ∷ l) =
    (p ≡ q) × (0 < q) × (q ≢ stop) × NotIn q l × Chain procs stop (procs q).next l

-- The ring: the kernel's own process, and from it through the processes `l` back to it. The current
-- process is one of them.
pub record IsRing (s : Sched) (l : List ℕ) : Type 0 where
  pub head : 0 < s.process_list
  pub chain : Chain s.procs s.process_list (s.procs s.process_list).next l
  pub current : IsIn s.current_process (s.process_list ∷ l)

-- The chain reads nothing but the `next` of its structs.
pub Chain-frame :
    (procs procs' : ℕ → Process) (stop p : ℕ) (l : List ℕ)
    → ((q : ℕ) → IsIn q l → (procs' q).next ≡ (procs q).next)
    → Chain procs stop p l
    → Chain procs' stop p l
Chain-frame procs procs' stop p [] same c = c
Chain-frame procs procs' stop p (q ∷ l) same (e, z, n, o, c) = (
  e,
  z,
  n,
  o,
  rw (same q (inl refl)) (Chain-frame procs procs' stop (procs q).next l (λ r i. same r (inr i)) c),
)

pub Chain-stop :
    (procs : ℕ → Process) (stop p : ℕ) (l : List ℕ) → Chain procs stop p l → NotIn stop l
Chain-stop procs stop p [] c = tt
Chain-stop procs stop p (q ∷ l) (e, z, n, o, c) =
    ((λ w. n (sym w)), Chain-stop procs stop (procs q).next l c)

pub Chain-positive :
    (procs : ℕ → Process) (stop p q : ℕ) (l : List ℕ) → Chain procs stop p l → IsIn q l → 0 < q
Chain-positive procs stop p q [] c i = absurd i
Chain-positive procs stop p q (r ∷ l) (e, z, n, o, c) (inl w) = omega (arith, z, w)
Chain-positive procs stop p q (r ∷ l) (e, z, n, o, c) (inr i) =
    Chain-positive procs stop (procs r).next q l c i

count_from-length :
    (fuel count p : ℕ) (l : List ℕ) (s : Sched)
    → 0 < s.process_list
    → count ≤ 4096
    → 4097 ≤ count + fuel
    → Chain s.procs s.process_list p l
    → count_from fuel count p s ≡ min (count + length l) 4097
unfolding count_from
count_from-length zero count p l s h small enough c = absurd (omega arith)
count_from-length (suc fuel) count p [] s h small enough c =
    rw
      (c, eq→== s.process_list s.process_list refl, ne→==-false s.process_list 0 (λ z. omega arith))
      (omega arith)
count_from-length (suc fuel) count p (q ∷ l) s h small enough (e, z, n, o, c) =
    rw (e, ne→==-false q 0 (λ w. omega arith), ne→==-false q s.process_list n)
      (elim (Bool-cases (ltb 4096 (count + 1))) [
        | inl past ↦ rw past (omega (arith, ltb→lt 4096 (count + 1) past))
        | inr more ↦ rw more (
            count_from-length fuel (count + 1) (s.procs q).next l s h
              (omega (arith, ltb-false 4096 (count + 1) more)) (omega arith) c
            ∙ omega arith)
      ])

-- The count of a ring is the number of its processes, but never more than 4097.
pub scheduler_count-length :
    {s : Sched} {l : List ℕ} → IsRing s l → scheduler_count_internal s ≡ min (length l + 1) 4097
unfolding scheduler_count_internal
scheduler_count-length {s} {l} r = rw (ne→==-false s.process_list 0 (λ z. omega (arith, r.head))) (
    count_from-length 4097 1 (s.procs s.process_list).next l s r.head (omega arith) (omega arith)
      r.chain
    ∙ omega arith)

-- `yield` called `k` times.
unfoldable pub yields : ℕ → Sched → Sched
yields zero s = s
yields (suc k) s = yields k (yield s)

yields-add : (j k n : ℕ) (s : Sched) → n ≡ j + k → yields k (yields j s) ≡ yields n s
unfolding yields
yields-add zero k n s e = let same : k ≡ n = omega arith in ap (λ m. yields m s) same
yields-add (suc j) k n s e =
    let same : suc (j + k) ≡ n = omega arith in
    yields-add j k (j + k) (yield s) refl ∙ ap (λ m. yields m s) same

yield_kept : (s : Sched) → ((yield s).procs ≡ s.procs) × ((yield s).process_list ≡ s.process_list)
unfolding yield
yield_kept s =
    elim (Bool-cases
      ((s.current_process == 0) || (s.current_process == (s.procs s.current_process).next))) [
        | inl e ↦ rw e (refl, refl)
        | inr e ↦ rw e (refl, refl)
      ]

yields_kept :
    (k : ℕ) (s : Sched)
    → ((yields k s).procs ≡ s.procs) × ((yields k s).process_list ≡ s.process_list)
unfolding yields
yields_kept zero s = (refl, refl)
yields_kept (suc k) s =
    let (a, b) = yield_kept s in let (c, d) = yields_kept k (yield s) in (c ∙ a, d ∙ b)

yield-next :
    (s : Sched)
    → 0 < s.current_process
    → (yield s).current_process ≡ (s.procs s.current_process).next
unfolding yield
yield-next s h =
    rw (ne→==-false s.current_process 0 (λ w. omega arith))
      (elim (Bool-cases (s.current_process == (s.procs s.current_process).next)) [
        | inl e ↦ rw e (==→eq s.current_process (s.procs s.current_process).next e)
        | inr e ↦ rw e refl
      ])

-- The state stands in front of the processes `l`, the last of which leads to the kernel's.
record IsBefore (s : Sched) (l : List ℕ) : Type 0 where
  running : 0 < s.current_process
  ahead : Chain s.procs s.process_list (s.procs s.current_process).next l

yield-IsBefore :
    (s : Sched) (q : ℕ) (l : List ℕ)
    → IsBefore s (q ∷ l)
    → ((yield s).current_process ≡ q) × IsBefore (yield s) l
yield-IsBefore s q l b =
    let (e, z, n, o, c) = b.ahead in
    let (same, same') = yield_kept s in
    let here : (yield s).current_process ≡ q = yield-next s b.running ∙ e in
    (here, record { running = omega (arith, here); ahead = rw (here, same, same') c })

visit :
    (l : List ℕ) (s : Sched) (q : ℕ)
    → IsBefore s l
    → IsIn q l
    → (k : ℕ) × (k ≤ length l) × ((yields k s).current_process ≡ q)
unfolding yields
visit [] s q b i = absurd i
visit (r ∷ l) s q b (inl e) = (1, omega arith, (yield-IsBefore s r l b).0 ∙ sym e)
visit (r ∷ l) s q b (inr i) =
    let (k, le, e) = visit l (yield s) q (yield-IsBefore s r l b).1 i in (suc k, omega arith, e)

go_round :
    (l : List ℕ) (s : Sched)
    → IsBefore s l
    → (yields (suc (length l)) s).current_process ≡ s.process_list
unfolding yields
go_round [] s b = yield-next s b.running ∙ b.ahead
go_round (r ∷ l) s b = go_round l (yield s) (yield-IsBefore s r l b).1 ∙ (yield_kept s).1

ahead_of :
    (procs : ℕ → Process) (stop p q : ℕ) (l : List ℕ)
    → Chain procs stop p l
    → IsIn q l
    → (l' : List ℕ) × (0 < q) × (length l' ≤ length l) × Chain procs stop (procs q).next l'
ahead_of procs stop p q [] c i = absurd i
ahead_of procs stop p q (r ∷ l) (e, z, n, o, c) (inl w) = (l, omega arith, omega arith, rw w c)
ahead_of procs stop p q (r ∷ l) (e, z, n, o, c) (inr i) =
    let (l', z', le, c') = ahead_of procs stop (procs r).next q l c i in (l', z', omega arith, c')

current-IsBefore :
    {s : Sched} {l : List ℕ} → IsRing s l → (l' : List ℕ) × (length l' ≤ length l) × IsBefore s l'
current-IsBefore {s} {l} r = from r.current
  where
    from :
        IsIn s.current_process (s.process_list ∷ l)
        → (l' : List ℕ) × (length l' ≤ length l) × IsBefore s l'
    from (inl e) =
        (l, omega arith, record { running = omega (arith, r.head); ahead = rw e r.chain })
    from (inr i) =
        let (l', z, le, c) =
          ahead_of s.procs s.process_list (s.procs s.process_list).next s.current_process l r.chain
            i in
        (l', le, record { running = z; ahead = c })

-- From any process of a ring, every process of it has its turn after at most `2 * length l + 1` calls of
-- `yield`, where the ring has `length l + 1` processes.
pub yields-IsIn :
    (q : ℕ) {s : Sched} {l : List ℕ}
    → IsRing s l
    → IsIn q (s.process_list ∷ l)
    → (k : ℕ) × (k ≤ 2 * length l + 1) × ((yields k s).current_process ≡ q)
yields-IsIn q {s} {l} r i = to i
  where
    l' : List ℕ
    l' = (current-IsBefore r).0

    short : length l' ≤ length l
    short = (current-IsBefore r).1

    before : IsBefore s l'
    before = (current-IsBefore r).2

    s' : Sched
    s' = yields (suc (length l')) s

    kept : (s'.procs ≡ s.procs) × (s'.process_list ≡ s.process_list)
    kept = yields_kept (suc (length l')) s

    home : s'.current_process ≡ s.process_list
    home = go_round l' s before

    to :
        IsIn q (s.process_list ∷ l)
        → (k : ℕ) × (k ≤ 2 * length l + 1) × ((yields k s).current_process ≡ q)
    to (inl e) = (suc (length l'), omega (arith, short), home ∙ sym e)
    to (inr j) =
        let again : IsBefore s' l = record {
          running = omega (arith, home, r.head);
          ahead = rw (home, kept.0, kept.1) r.chain;
        } in
        let (k, le, e) = visit l s' q again j in
        (
          suc (length l') + k,
          omega (arith, short, le),
          ap (λ t. t.current_process)
                (sym (yields-add (suc (length l')) k (suc (length l') + k) s refl))
              ∙ e,
        )
