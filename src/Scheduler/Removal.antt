-- ===== src/Scheduler/Removal.antt =====
-- One process taken out of the ring of src/kernel/scheduler.c.
use heat_os.Prelude.{
  ℕ, ◌≡◌, ◌≢◌, refl, ap, ◌∙◌, sym, subst, List, [], ◌∷◌, inl, inr, update, update_self, update_ne,
  NotIn, IsIn, NotIn-both,
}
use heat_os.Scheduler.{Process}
use heat_os.Scheduler.Ring.{Chain, Chain-frame}

-- `cur` stands in the list `prev ∷ l` right behind `before`, and `l'` is `l` without it.
pub data Removed : ℕ → List ℕ → ℕ → ℕ → List ℕ → Type 0 where
  here : (prev cur : ℕ) (l : List ℕ) → Removed prev (cur ∷ l) prev cur l
  there :
      (prev q : ℕ) {l l' : List ℕ} {before cur : ℕ}
      → Removed q l before cur l'
      → Removed prev (q ∷ l) before cur (q ∷ l')

pub cur-IsIn : {prev before cur : ℕ} {l l' : List ℕ} → Removed prev l before cur l' → IsIn cur l
cur-IsIn (here prev cur l) = inl refl
cur-IsIn (there prev q r) = inr (cur-IsIn r)

before-IsIn :
    {prev before cur : ℕ} {l l' : List ℕ} → Removed prev l before cur l' → IsIn before (prev ∷ l)
before-IsIn (here prev cur l) = inl refl
before-IsIn (there prev q r) = inr (before-IsIn r)

pub rest-IsIn :
    {prev before cur : ℕ} {l l' : List ℕ} (x : ℕ)
    → Removed prev l before cur l'
    → IsIn x l'
    → IsIn x l
rest-IsIn x (here prev cur l) i = inr i
rest-IsIn x (there prev q r) (inl e) = inl e
rest-IsIn x (there prev q r) (inr i) = inr (rest-IsIn x r i)

pub others-IsIn :
    {prev before cur : ℕ} {l l' : List ℕ} (x : ℕ)
    → Removed prev l before cur l'
    → IsIn x l
    → x ≢ cur
    → IsIn x l'
others-IsIn x (here prev cur l) (inl e) ne = absurd (ne e)
others-IsIn x (here prev cur l) (inr i) ne = i
others-IsIn x (there prev q r) (inl e) ne = inl e
others-IsIn x (there prev q r) (inr i) ne = inr (others-IsIn x r i ne)

rest-NotIn :
    {prev before cur : ℕ} {l l' : List ℕ} (x : ℕ)
    → Removed prev l before cur l'
    → NotIn x l
    → NotIn x l'
rest-NotIn x (here prev cur l) (ne, o) = o
rest-NotIn x (there prev q r) (ne, o) = (ne, rest-NotIn x r o)

-- The one that was taken out is gone.
pub gone :
    {prev before cur : ℕ} {l l' : List ℕ} (procs : ℕ → Process) (stop p : ℕ)
    → Removed prev l before cur l'
    → Chain procs stop p l
    → NotIn cur l'
gone procs stop p (here prev cur l) (e, z, n, o, c) = o
gone procs stop p (there prev q {l} r) (e, z, n, o, c) = (
  (λ w. NotIn-both q l o (subst (λ x. IsIn x l) w (cur-IsIn r))),
  gone procs stop (procs q).next r c,
)

-- The ring with the pointer in front of `cur` led past it.
abbrev pub bypass : ℕ → ℕ → (ℕ → Process) → ℕ → Process
bypass before cur procs = update procs before (record (procs before) { next = (procs cur).next })

pub bypass-Chain :
    {prev before cur : ℕ} {l l' : List ℕ} (procs : ℕ → Process) (stop : ℕ)
    → Removed prev l before cur l'
    → NotIn prev l
    → Chain procs stop (procs prev).next l
    → Chain (bypass before cur procs) stop (bypass before cur procs prev).next l'
bypass-Chain procs stop (here prev cur l) (ne, o) (e, z, n, o', c) =
    subst (λ x. Chain (bypass prev cur procs) stop x l)
      (sym (
        ap (λ x. x.next)
          (update_self procs prev (record (procs prev) { next = (procs cur).next }))))
      (Chain-frame procs (bypass prev cur procs) stop (procs cur).next l same c)
  where
    same : (q : ℕ) → IsIn q l → (bypass prev cur procs q).next ≡ (procs q).next
    same q i =
        ap (λ x. x.next)
          (update_ne procs prev q (record (procs prev) { next = (procs cur).next })
            (λ w. NotIn-both prev l o (subst (λ x. IsIn x l) (sym w) i)))
bypass-Chain procs stop (there prev q {l} {l'} {before} {cur} r) (ne, o) (e, z, n, o', c) =
    (kept ∙ e, z, n, rest-NotIn q r o', bypass-Chain procs stop r o' c)
  where
    apart : before ≢ prev
    apart w = NotIn-both prev (q ∷ l) (ne, o) (subst (λ x. IsIn x (q ∷ l)) w (before-IsIn r))

    kept : (bypass before cur procs prev).next ≡ (procs prev).next
    kept =
        ap (λ x. x.next)
          (update_ne procs before prev (record (procs before) { next = (procs cur).next }) apart)

-- What follows the one that was taken out is in the ring still.
pub next-IsIn :
    {prev before cur : ℕ} {l l' : List ℕ} (procs : ℕ → Process) (stop p : ℕ)
    → Removed prev l before cur l'
    → Chain procs stop p l
    → IsIn (procs cur).next (stop ∷ l')
next-IsIn procs stop p (here prev cur []) (e, z, n, o, c) = inl c
next-IsIn procs stop p (here prev cur (r ∷ l)) (e, z, n, o, c) = inr (inl c.0)
next-IsIn procs stop p (there prev q {l} {l'} {before} {cur} r) (e, z, n, o, c) =
    further (next-IsIn procs stop (procs q).next r c)
  where
    further : IsIn (procs cur).next (stop ∷ l') → IsIn (procs cur).next (stop ∷ q ∷ l')
    further (inl w) = inl w
    further (inr i) = inr (inr i)
