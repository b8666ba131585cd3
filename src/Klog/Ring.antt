-- ===== src/Klog/Ring.antt =====
-- The ring of src/kernel/klog.c holds the last `capacity` characters that were put into it.
use heat_os.Prelude.{
  ℕ, zero, suc, ◌+◌, ◌-◌, ◌*◌, ◌%◌, ◌^◌, ◌≤◌, ◌<◌, ◌≡◌, refl, ap, ap₂, ◌∙◌, List, [], ◌∷◌, ◌++◌,
  arith, add32, length, take_last, update, update_ne, update_self, Bool-cases, inl, inr,
  le→ltb-false, ltb-false, ltb→lt, lt→ltb, take_last_append, append_assoc, append-nil,
  length-append, drop, sym, ltb,
}
use heat_os.Klog.{Klog, capacity, read_loop, oldest, klog_ring_putc, klog_ring_puts}

pub record IsValid (k : Klog) : Type 0 where
  pub head_in : k.head < capacity
  pub size_in : k.size ≤ capacity

-- What the ring holds, oldest first.
abbrev pub contents : Klog → List ℕ
contents k = read_loop k.ring (oldest k) 0 k.size

pub length-read_loop : (f : ℕ → ℕ) (s i n : ℕ) → length (read_loop f s i n) ≡ n
unfolding read_loop
length-read_loop f s i zero = refl
length-read_loop f s i (suc n) = ap suc (length-read_loop f s (suc i) n)

read_loop-add-one :
    (f : ℕ → ℕ) (s i n : ℕ)
    → read_loop f s i (suc n) ≡ read_loop f s i n ++ (f (add32 s (i + n) % capacity) ∷ [])
unfolding read_loop
read_loop-add-one f s i zero = ap (λ k. f (add32 s k % capacity) ∷ []) (omega arith)
read_loop-add-one f s i (suc n) = ap₂ ◌∷◌ refl (
    read_loop-add-one f s (suc i) n
    ∙ ap (λ k. read_loop f s (suc i) n ++ (f (add32 s k % capacity) ∷ [])) (omega arith))

read_loop-update :
    (f : ℕ → ℕ) (s h c i n : ℕ)
    → s < capacity
    → i + n ≤ capacity
    → ((j : ℕ) → i ≤ j → j < i + n → (h ≡ (s + j) % capacity → ⊥))
    → read_loop (update f h c) s i n ≡ read_loop f s i n
unfolding read_loop
read_loop-update f s h c i zero b e ne = refl
read_loop-update f s h c i (suc n) b e ne =
    ap₂ ◌∷◌ (slot (omega arith)) (
      read_loop-update f s h c (suc i) n b (omega arith)
        (λ j p q. ne j (omega arith) (omega arith)))
  where
    slot : i < capacity → update f h c (add32 s i % capacity) ≡ f (add32 s i % capacity)
    slot r =
        update_ne f h (add32 s i % capacity) c (λ w. ne i (omega arith) (omega arith) (omega arith))

read_loop_next :
    (f : ℕ → ℕ) (s s' i n : ℕ)
    → s < capacity
    → i + n < 2 * capacity
    → s' ≡ (s + 1) % capacity
    → read_loop f s (suc i) n ≡ read_loop f s' i n
unfolding read_loop
read_loop_next f s s' i zero b m e = refl
read_loop_next f s s' i (suc n) b m e =
    ap₂ ◌∷◌ (ap f (omega arith)) (read_loop_next f s s' (suc i) n b (omega arith) e)

oldest_lem :
    {k : Klog} → IsValid k → (oldest k < capacity) × (add32 (oldest k) k.size % capacity ≡ k.head)
unfolding oldest
oldest_lem v = (omega arith, omega arith)

-- `klog_ring_putc` keeps the indices in range.
pub klog_ring_putc-IsValid : {k : Klog} (c : ℕ) → IsValid k → IsValid (klog_ring_putc c k)
unfolding klog_ring_putc
klog_ring_putc-IsValid c v = ground arith

module _ {k : Klog} (c : ℕ) (v : IsValid k) where
  -- The window before the write is left alone by it, but for the oldest character of a full ring.
  putc-tail :
      (i n : ℕ)
      → i + n ≡ k.size
      → (k.size ≡ capacity → 1 ≤ i)
      → read_loop (update k.ring k.head c) (oldest k) i n ≡ read_loop k.ring (oldest k) i n
  unfolding oldest
  putc-tail i n e full =
      read_loop-update k.ring (oldest k) k.head c i n (omega arith) (omega arith)
        (λ j p q w. omega arith)

  -- The write goes to the slot behind the newest character.
  putc-slot :
      (o n : ℕ) → add32 o n % capacity ≡ k.head → update k.ring k.head c (add32 o n % capacity) ≡ c
  putc-slot o n e = rw e (update_self k.ring k.head c)

  putc-room : k.size < capacity → contents (klog_ring_putc c k) ≡ contents k ++ (c ∷ [])
  unfolding klog_ring_putc oldest
  putc-room r = rw (lt→ltb k.size capacity r) (
      ap₂ (λ o n. read_loop (update k.ring k.head c) o 0 n) start count
      ∙ (read_loop-add-one (update k.ring k.head c) (oldest k) 0 k.size
          ∙ ap₂ (λ xs x. xs ++ (x ∷ [])) (putc-tail 0 k.size (omega arith) (λ e. omega arith))
              (putc-slot (oldest k) (0 + k.size) (omega arith))))
    where
      start :
          (add32 (add32 k.head 1 % capacity) capacity + 2 ^ 32 - add32 k.size 1) % 2 ^ 32 % capacity
          ≡ oldest k
      start = omega arith

      count : add32 k.size 1 ≡ suc k.size
      count = omega arith

  putc-full :
      (n : ℕ)
      → k.size ≡ suc n
      → suc n ≡ capacity
      → contents (klog_ring_putc c k) ≡ read_loop k.ring (oldest k) 1 n ++ (c ∷ [])
  unfolding klog_ring_putc oldest
  putc-full n e full = rw (le→ltb-false k.size capacity (omega arith)) (
      ap₂ (λ o m. read_loop (update k.ring k.head c) o 0 m) start e
      ∙ (read_loop-add-one (update k.ring k.head c) next 0 n
          ∙ ap₂ (λ xs x. xs ++ (x ∷ []))
              (sym (
                  read_loop_next (update k.ring k.head c) (oldest k) next 0 n (omega arith)
                    (omega arith) refl)
                ∙ putc-tail 1 n (omega arith) (λ e. omega arith))
              (putc-slot next (0 + n) (omega arith))))
    where
      next : ℕ
      next = (oldest k + 1) % capacity

      start :
          (add32 (add32 k.head 1 % capacity) capacity + 2 ^ 32 - k.size) % 2 ^ 32 % capacity ≡ next
      start = omega arith

  length-contents-add : length (contents k ++ (c ∷ [])) ≡ suc k.size
  length-contents-add =
      omega
        (arith, length-append (contents k) (c ∷ []), length-read_loop k.ring (oldest k) 0 k.size)

  window-cons :
      (n : ℕ)
      → k.size ≡ suc n
      → drop 1 (contents k ++ (c ∷ [])) ≡ read_loop k.ring (oldest k) 1 n ++ (c ∷ [])
  unfolding read_loop
  window-cons n e = ap (λ m. drop 1 (read_loop k.ring (oldest k) 0 m ++ (c ∷ []))) e

  -- One more character, and the oldest dropped if there is no room for it.
  pub putc-take_last : contents (klog_ring_putc c k) ≡ take_last capacity (contents k ++ (c ∷ []))
  putc-take_last = elim (Bool-cases (ltb k.size capacity)) [
    | inl room ↦
        let r : k.size < capacity = ltb→lt k.size capacity room in
        let d : 0 ≡ length (contents k ++ (c ∷ [])) - capacity =
          omega (arith, length-contents-add) in
        putc-room r ∙ ap (λ m. drop m (contents k ++ (c ∷ []))) d
    | inr full ↦
        let r : capacity ≤ k.size = ltb-false k.size capacity full in
        let e : k.size ≡ suc 8191 = omega arith in
        let d : 1 ≡ length (contents k ++ (c ∷ [])) - capacity =
          omega (arith, length-contents-add) in
        putc-full 8191 e refl
        ∙ (sym (window-cons 8191 e) ∙ ap (λ m. drop m (contents k ++ (c ∷ []))) d)
  ]

pub klog_ring_puts-IsValid : (s : List ℕ) {k : Klog} → IsValid k → IsValid (klog_ring_puts s k)
unfolding klog_ring_puts
klog_ring_puts-IsValid [] v = v
klog_ring_puts-IsValid (c ∷ s) v = klog_ring_puts-IsValid s (klog_ring_putc-IsValid c v)

take_last-contents : {k : Klog} → IsValid k → contents k ≡ take_last capacity (contents k)
take_last-contents {k} v =
    let d : 0 ≡ length (contents k) - capacity =
      omega (arith, length-read_loop k.ring (oldest k) 0 k.size) in
    ap (λ m. drop m (contents k)) d

-- The characters of a text go in one after another, and the ring keeps the last `capacity`.
pub puts-take_last :
    (s : List ℕ) {k : Klog}
    → IsValid k
    → contents (klog_ring_puts s k) ≡ take_last capacity (contents k ++ s)
unfolding klog_ring_puts
puts-take_last [] {k} v =
    take_last-contents v ∙ ap (take_last capacity) (sym (append-nil (contents k)))
puts-take_last (c ∷ s) {k} v =
    puts-take_last s (klog_ring_putc-IsValid c v)
    ∙ (ap (λ xs. take_last capacity (xs ++ s)) (putc-take_last c v)
        ∙ (take_last_append capacity (contents k ++ (c ∷ [])) s
            ∙ ap (take_last capacity) (append_assoc (contents k) (c ∷ []) s)))
