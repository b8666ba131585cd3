-- ===== src/Scheduler/Search.antt =====
-- The search of `scheduler_kill` in src/kernel/scheduler.c.
use heat_os.Prelude.{
  ℕ, zero, suc, ◌<◌, ◌≡◌, ◌≢◌, refl, ◌∙◌, sym, subst, Bool, true, false, Option, none, some, List,
  [], ◌∷◌, ◌==◌, ◌||◌, if◌then◌else◌, arith, length, inl, inr, ne→==-false, eq→==, ==-false, IsIn,
  Bool-cases,
}
use heat_os.Scheduler.{Process, World, kill_from, take_out}
use heat_os.Scheduler.Ring.{Chain}
use heat_os.Scheduler.Removal.{Removed, here, there}

-- The first of the processes `l` that has the pid.
pub first_with : (ℕ → Process) → ℕ → List ℕ → Option ℕ
first_with procs pid [] = none
first_with procs pid (q ∷ l) = if (procs q).id == pid then some q else first_with procs pid l

-- The search of `scheduler_kill`: nobody has the pid, or the first one that has it is taken out.
pub data Search (fuel : ℕ) (tx : ℕ → Bool) (pid prev : ℕ) (w : World) (l : List ℕ) : Type 0 where
  nobody :
      ((q : ℕ) → IsIn q l → (w.sched.procs q).id ≢ pid)
      → kill_from fuel tx pid prev (w.sched.procs prev).next w ≡ some (false, w)
      → Search fuel tx pid prev w l
  found :
      (before cur : ℕ) (l' : List ℕ)
      → Removed prev l before cur l'
      → first_with w.sched.procs pid l ≡ some cur
      → kill_from fuel tx pid prev (w.sched.procs prev).next w ≡ take_out tx pid before cur w
      → Search fuel tx pid prev w l

pub search :
    (fuel : ℕ) (tx : ℕ → Bool) (pid prev : ℕ) (w : World) (l : List ℕ)
    → length l < fuel
    → Chain w.sched.procs w.sched.process_list (w.sched.procs prev).next l
    → Search fuel tx pid prev w l
unfolding kill_from first_with
search zero tx pid prev w l h c = absurd (omega arith)
search (suc fuel) tx pid prev w [] h c =
    nobody (λ q i. absurd i)
      (rw
        (
          eq→== (w.sched.procs prev).next w.sched.process_list c,
          or_true ((w.sched.procs prev).next == 0),
        )
        refl)
  where
    or_true : (a : Bool) → (a || true) ≡ true
    or_true true = refl
    or_true false = refl
search (suc fuel) tx pid prev w (q ∷ l) h (e, z, n, o, c) =
    elim (Bool-cases ((w.sched.procs q).id == pid)) [
      | inl hit ↦ found prev q l (here prev q l) (rw hit refl) (
          rw (e, ne→==-false q 0 (λ x. omega arith), ne→==-false q w.sched.process_list n, hit)
            refl)
      | inr miss ↦
          on (==-false (w.sched.procs q).id pid miss) (rw miss refl)
            (rw (e, ne→==-false q 0 (λ x. omega arith), ne→==-false q w.sched.process_list n, miss)
              refl)
            (search fuel tx pid q w l (omega arith) c)
    ]
  where
    on :
        (w.sched.procs q).id ≢ pid
        → first_with w.sched.procs pid (q ∷ l) ≡ first_with w.sched.procs pid l
        → kill_from (suc fuel) tx pid prev (w.sched.procs prev).next w
          ≡ kill_from fuel tx pid q (w.sched.procs q).next w
        → Search fuel tx pid q w l
        → Search (suc fuel) tx pid prev w (q ∷ l)
    on ne skip step (nobody none_has r) = nobody all (step ∙ r)
      where
        all : (x : ℕ) → IsIn x (q ∷ l) → (w.sched.procs x).id ≢ pid
        all x (inl same) = subst (λ y. (w.sched.procs y).id ≢ pid) (sym same) ne
        all x (inr i) = none_has x i
    on ne skip step (found before cur l' r has t) =
        found before cur (q ∷ l') (there prev q r) (skip ∙ has) (step ∙ t)
