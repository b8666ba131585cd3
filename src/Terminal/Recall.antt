-- ===== src/Terminal/Recall.antt =====
-- The history of src/terminal/terminal.c against the list of all commands.
use heat_os.Prelude.{
  ℕ, zero, suc, ◌+◌, ◌-◌, ◌*◌, ◌%◌, ◌≤◌, ◌<◌, ◌≡◌, ◌≢◌, refl, sym, ap, ◌∙◌, false, Option, none,
  some, List, [], ◌∷◌, arith, min, length, take, ltb, if◌then◌else◌, Bool-cases, inl, inr, ltb→lt,
  ltb-false, lt→ltb, update_self, update_ne,
}
use native.Mathlib.Decide.{dec_lt}
use heat_os.Terminal.{History, hist_size, hist_len, hist_add, hist_get}

-- The commands one after another.
unfoldable pub adds : List (List ℕ) → History → History
adds [] h = h
adds (cmd ∷ cmds) h = adds cmds (hist_add cmd h)

-- The list without a bound that the history stands for, latest command first: empty commands are not
-- kept, and of a long one the first 255 characters are.
unfoldable pub remember : List (List ℕ) → List (List ℕ) → List (List ℕ)
remember [] past = past
remember ([] ∷ cmds) past = remember cmds past
remember ((c ∷ cmd) ∷ cmds) past = remember cmds (take (hist_len - 1) (c ∷ cmd) ∷ past)

unfoldable pub nth : ℕ → List (List ℕ) → Option (List ℕ)
nth k [] = none
nth zero (x ∷ l) = some x
nth (suc k) (x ∷ l) = nth k l

-- The ring holds the latest entries of the list.
pub record IsRecall (h : History) (l : List (List ℕ)) : Type 0 where
  pub next_in : h.next < hist_size
  pub counted : h.count ≡ min hist_size (length l)
  pub kept : (k : ℕ) → k < h.count → nth k l ≡ some (h.entries ((h.next + 99 - k) % hist_size))

hist_add-IsRecall :
    (c : ℕ) (cmd : List ℕ) {h : History} {l : List (List ℕ)}
    → IsRecall h l
    → IsRecall (hist_add (c ∷ cmd) h) (take (hist_len - 1) (c ∷ cmd) ∷ l)
unfolding hist_add nth
hist_add-IsRecall c cmd {h} {l} v = record {
  next_in = omega arith;
  counted = counted';
  kept = kept';
}
  where
    h' : History
    h' = hist_add (c ∷ cmd) h

    room : h.count ≤ 50
    room = omega (arith, v.counted)

    counted' : h'.count ≡ min hist_size (suc (length l))
    counted' = elim (Bool-cases (ltb h.count hist_size)) [
      | inl less ↦ rw less (omega (arith, v.counted, ltb→lt h.count hist_size less))
      | inr full ↦ rw full (omega (arith, v.counted, ltb-false h.count hist_size full))
    ]

    latest : (h'.next + 99 - 0) % hist_size ≡ h.next
    latest = omega (arith, v.next_in)

    kept' :
        (k : ℕ)
        → k < h'.count
        → nth k (take (hist_len - 1) (c ∷ cmd) ∷ l)
          ≡ some (h'.entries ((h'.next + 99 - k) % hist_size))
    kept' zero below =
        ap some (
          sym (ap h'.entries latest ∙ update_self h.entries h.next (take (hist_len - 1) (c ∷ cmd))))
    kept' (suc k) below =
        v.kept k inside
        ∙ ap some (
            sym (
              ap h'.entries same
              ∙ update_ne h.entries h.next ((h.next + 99 - k) % 50) (take (hist_len - 1) (c ∷ cmd))
                  apart))
      where
        inside : k < h.count
        inside = omega (arith, counted', v.counted, room)

        short : k < 49
        short = omega (arith, counted')

        same : (h'.next + 99 - suc k) % 50 ≡ (h.next + 99 - k) % 50
        same = omega (arith, v.next_in, short)

        apart : h.next ≢ (h.next + 99 - k) % 50
        apart e = omega (arith, v.next_in, short)

adds-IsRecall :
    (cmds : List (List ℕ)) {h : History} {l : List (List ℕ)}
    → IsRecall h l
    → IsRecall (adds cmds h) (remember cmds l)
unfolding adds remember hist_add
adds-IsRecall [] v = v
adds-IsRecall ([] ∷ cmds) v = adds-IsRecall cmds v
adds-IsRecall ((c ∷ cmd) ∷ cmds) v = adds-IsRecall cmds (hist_add-IsRecall c cmd v)

nth_past : (k : ℕ) (l : List (List ℕ)) → length l ≤ k → nth k l ≡ none
unfolding nth
nth_past k [] h = refl
nth_past zero (x ∷ l) h = absurd (omega arith)
nth_past (suc k) (x ∷ l) h = nth_past k l (omega arith)

hist_get-IsRecall :
    (k : ℕ) {h : History} {l : List (List ℕ)}
    → IsRecall h l
    → hist_get (suc k) h ≡ (if ltb k hist_size then nth k l else none)
unfolding hist_get
hist_get-IsRecall k {h} {l} v = elim (dec_lt k h.count) [
  | yes inside ↦
      rw
        (
          lt→ltb k hist_size (omega (arith, v.counted)),
          ltb_no (suc k) 1 (omega arith),
          ltb_no h.count (suc k) (omega arith),
        )
        (ap (λ i. some (h.entries (i % hist_size))) index ∙ sym (v.kept k inside))
  | no past ↦
      rw (ltb_no (suc k) 1 (omega arith), lt→ltb h.count (suc k) (omega arith))
        (elim (Bool-cases (ltb k hist_size)) [
          | inl low ↦ rw (low, nth_past k l (omega (arith, v.counted, ltb→lt k hist_size low))) refl
          | inr high ↦ rw high refl
        ])
]
  where
    index : h.next + hist_size * 2 - suc k ≡ h.next + 99 - k
    index = omega arith

    ltb_no : (a b : ℕ) → b ≤ a → ltb a b ≡ false
    ltb_no a b le = ground arith

-- From a history with no entries, after any commands, going `k + 1` steps back gives the command that
-- the list of all commands kept has at place `k`, for `k` below 50, and nothing from there on.
pub hist_get-adds :
    (cmds : List (List ℕ)) (k : ℕ) (h : History)
    → h.count ≡ 0
    → h.next < hist_size
    → hist_get (suc k) (adds cmds h) ≡ (if ltb k hist_size then nth k (remember cmds []) else none)
hist_get-adds cmds k h none_yet low = hist_get-IsRecall k (adds-IsRecall cmds start)
  where
    start : IsRecall h []
    start = record { next_in = low; counted = none_yet; kept = λ k below. absurd (omega arith) }
