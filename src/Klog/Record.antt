-- ===== src/Klog/Record.antt =====
-- `klog_log`: what a record leaves in the ring, and `klog_read` on it.
use heat_os.Prelude.{
  ℕ, zero, suc, ◌-◌, ◌⊎◌, ◌≤◌, ◌≡◌, refl, ap, ◌∙◌, sym, Bool, Option, some, List, [], ◌∷◌, ◌++◌,
  arith, add32, length, take_last, take_last_append, take, drop-nil, ◌%◌, ==→eq, Bool-cases, inl,
  inr, ltb, if◌then◌else◌, true, false, ltb→lt, ltb-false, ne→==-false, ◌==◌,
}
use heat_os.CString.Digits.{utoa}
use heat_os.Serial.{Serial}
use heat_os.Klog.{
  Klog, Level, capacity, klog_ring_putc, klog_ring_puts, put_record, klog_log, klog_level_char,
  subsys_name, message, read_loop, oldest, klog_read, klog_clear,
}
use heat_os.Klog.Ring.{IsValid, contents, klog_ring_puts-IsValid, puts-take_last, length-read_loop}

-- The line that a record is printed as.
pub record_text : ℕ → List ℕ → List ℕ → List ℕ → List ℕ
record_text level_c seq subsys msg =
    b'<'
    ∷ level_c
    ∷ b'>'
    ∷ b' '
    ∷ b'['
    ∷ (seq ++ (b']' ∷ b' ' ∷ b'[' ∷ (subsys ++ (b']' ∷ b' ' ∷ (msg ++ (b'\n' ∷ []))))))

puts-append :
    (s t : List ℕ) (k : Klog) → klog_ring_puts (s ++ t) k ≡ klog_ring_puts t (klog_ring_puts s k)
unfolding klog_ring_puts
puts-append [] t k = refl
puts-append (c ∷ s) t k = puts-append s t (klog_ring_putc c k)

-- The calls of `klog_ring_putc` and `klog_ring_puts` are one `klog_ring_puts` of the line.
put_record-puts :
    (c : ℕ) (seq subsys msg : List ℕ) (k : Klog)
    → put_record c seq subsys msg k ≡ klog_ring_puts (record_text c seq subsys msg) k
unfolding put_record record_text klog_ring_puts
put_record-puts c seq subsys msg k = simp puts-append

lines-puts : (s : List ℕ) (k : Klog) → (klog_ring_puts s k).lines ≡ k.lines
unfolding klog_ring_puts klog_ring_putc
lines-puts [] k = refl
lines-puts (c ∷ s) k = lines-puts s (klog_ring_putc c k)

contents-lines : (k : Klog) (n : ℕ) → contents (record k { lines = n }) ≡ contents k
unfolding oldest
contents-lines k n = refl

-- `klog_log` appends the printed line to what the ring holds, drops the oldest characters past the
-- capacity, counts the line modulo 2^32, and keeps the ring's indices in range.
pub klog_log-take_last :
    (tx : ℕ → Bool) (level : Level) (subsys msg : Option (List ℕ)) {k : Klog} (s : Serial)
    → IsValid k
    → let k' = (klog_log tx level subsys msg (k, s)).0 in
      (contents k'
        ≡ take_last capacity (
            contents k
            ++ record_text
                (klog_level_char level)
                (utoa (add32 k.lines 1) 10)
                (subsys_name subsys)
                (message msg)))
      × (k'.lines ≡ add32 k.lines 1)
      × IsValid k'
unfolding klog_log
klog_log-take_last tx level subsys msg {k} s v = rw put_record-puts (
  puts-take_last line numbered ∙ ap (λ xs. take_last capacity (xs ++ line)) (contents-lines k n),
  lines-puts line (record k { lines = n }),
  klog_ring_puts-IsValid line numbered,
)
  where
    n : ℕ
    n = add32 k.lines 1

    line : List ℕ
    line = record_text (klog_level_char level) (utoa n 10) (subsys_name subsys) (message msg)

    numbered : IsValid (record k { lines = n })
    numbered = record { head_in = v.head_in; size_in = v.size_in }

take-read_loop : (f : ℕ → ℕ) (s i m n : ℕ) → m ≤ n → take m (read_loop f s i n) ≡ read_loop f s i m
unfolding read_loop
take-read_loop f s i zero zero h = refl
take-read_loop f s i zero (suc n) h = refl
take-read_loop f s i (suc m) zero h = absurd (omega arith)
take-read_loop f s i (suc m) (suc n) h =
    ap (λ xs. f (add32 s i % capacity) ∷ xs) (take-read_loop f s (suc i) m n (omega arith))

take-all : (m : ℕ) (xs : List ℕ) → length xs ≤ m → take m xs ≡ xs
take-all zero [] h = refl
take-all zero (x ∷ xs) h = absurd (omega arith)
take-all (suc m) [] h = refl
take-all (suc m) (x ∷ xs) h = ap (λ ys. x ∷ ys) (take-all m xs (omega arith))

klog_read-take : (m : ℕ) (k : Klog) → klog_read (suc m) k ≡ some (take m (contents k))
unfolding klog_read read_loop
klog_read-take m k = elim (Bool-cases (k.size == 0)) [
  | inl e ↦ rw (ne→==-false (suc m) 0 (λ w. omega arith), e) (ap some (sym (none_kept e)))
  | inr e ↦
      rw (ne→==-false (suc m) 0 (λ w. omega arith), e, minus)
        (ap some (some_kept (Bool-cases (ltb m k.size))))
]
  where
    open k use {ring, size}

    minus : suc m - 1 ≡ m
    minus = omega arith

    none_kept : (size == 0) ≡ true → take m (contents k) ≡ []
    none_kept e =
        ap (λ n. take m (read_loop ring (oldest k) 0 n)) (==→eq size 0 e)
        ∙ take-all m [] (omega arith)

    some_kept :
        (ltb m size ≡ true) ⊎ (ltb m size ≡ false)
        → read_loop ring (oldest k) 0 (if ltb m size then m else size) ≡ take m (contents k)
    some_kept (inl l) =
        rw l (sym (take-read_loop ring (oldest k) 0 m size (omega (arith, ltb→lt m size l))))
    some_kept (inr l) = rw l (
        sym (
          take-all m (contents k)
            (omega (arith, length-read_loop ring (oldest k) 0 size, ltb-false m size l))))

-- What a client does with the log.
pub data Op : Type 0 where
  log : Level → Option (List ℕ) → Option (List ℕ) → Op
  clear : Op

-- The calls in order, and the text that they leave in a log with no bound, beside the line count.
pub run : (ℕ → Bool) → List Op → Klog × Serial → Klog × Serial
run tx [] ks = ks
run tx (log l m t ∷ ops) ks = run tx ops (klog_log tx l m t ks)
run tx (clear ∷ ops) (k, s) = run tx ops (klog_clear k, s)

pub logged : List Op → ℕ → List ℕ → List ℕ
logged [] n out = out
logged (log l m t ∷ ops) n out =
    logged ops (add32 n 1)
      (out ++ record_text (klog_level_char l) (utoa (add32 n 1) 10) (subsys_name m) (message t))
logged (clear ∷ ops) n out = logged ops n []

cleared : (k : Klog) → IsValid (klog_clear k)
unfolding klog_clear
cleared k = omega arith

-- From a valid state whose ring keeps the last 8192 characters of `out`, every sequence of
-- `klog_log` and `klog_clear` calls leaves the last 8192 characters of the unbounded log.
pub run-take_last :
    (tx : ℕ → Bool) (ops : List Op) (out : List ℕ) (k : Klog) (s : Serial)
    → IsValid k
    → contents k ≡ take_last capacity out
    → contents (run tx ops (k, s)).0 ≡ take_last capacity (logged ops k.lines out)
unfolding run logged klog_clear read_loop
run-take_last tx [] out k s v e = e
run-take_last tx (log l m t ∷ ops) out k s v e =
    let (c, n, v') = klog_log-take_last tx l m t s v in
    let line : List ℕ =
      record_text (klog_level_char l) (utoa (add32 k.lines 1) 10) (subsys_name m) (message t) in
    let k' : Klog = (klog_log tx l m t (k, s)).0 in
    run-take_last tx ops (out ++ line) k' (klog_log tx l m t (k, s)).1 v'
      (c ∙ (ap (λ xs. take_last capacity (xs ++ line)) e ∙ take_last_append capacity out line))
    ∙ ap (λ i. take_last capacity (logged ops i (out ++ line))) n
run-take_last tx (clear ∷ ops) out k s v e =
    run-take_last tx ops [] (klog_clear k) s (cleared k) refl

contents_empty : (k : Klog) → k.size ≡ 0 → contents k ≡ take_last capacity []
unfolding read_loop
contents_empty k e =
    ap (λ n. read_loop k.ring (oldest k) 0 n) e ∙ sym (drop-nil (length {A = ℕ} [] - capacity))

-- From a valid state with an empty ring, after any sequence of `klog_log` and `klog_clear` calls, `klog_read`
-- with room for `m` characters and the terminator gives the first `m` of the last 8192 characters of the
-- unbounded log, all of these if there are no more.
pub klog_read-run :
    (tx : ℕ → Bool) (ops : List Op) (m : ℕ) (k : Klog) (s : Serial)
    → IsValid k
    → k.size ≡ 0
    → klog_read (suc m) (run tx ops (k, s)).0
      ≡ some (take m (take_last capacity (logged ops k.lines [])))
klog_read-run tx ops m k s v empty =
    klog_read-take m (run tx ops (k, s)).0
    ∙ ap (λ xs. some (take m xs)) (run-take_last tx ops [] k s v (contents_empty k empty))
