-- ===== src/Terminal/Typing.antt =====
-- The line editor of src/terminal/terminal.c: its positions stay in range, whatever keys come.
use heat_os.Prelude.{
  ℕ, ◌+◌, ◌-◌, ◌≤◌, ◌<◌, ◌≡◌, refl, Bool, true, false, Option, none, some, List, [], ◌∷◌, arith,
  length, take, length-take, ltb, leb, ◌==◌, ◌&&◌, if◌then◌else◌, Bool-cases, inl, inr, ltb→lt,
  update, update_self,
}
use heat_os.Keyboard.{entry}
use heat_os.Terminal.{
  Editor, hist_len, shift_down, shift_up, load_text, load_found, load_history_entry, reset_line,
  enter_line, backspace, delete_char, insert_char, history_up, history_down, handle_key,
}

-- The cursor stands in the line, the line and its NUL fit into the buffer, and the NUL is there.
pub record IsEditor (e : Editor) : Type 0 where
  pub cursor_in : e.cursor ≤ e.len
  pub short : e.len < hist_len
  pub ended : e.buf e.len ≡ 0

entry_end : (text : List ℕ) → entry text (length text) ≡ 0
unfolding entry
entry_end [] = refl
entry_end (c ∷ text) = entry_end text

load_text-IsEditor : (text : List ℕ) (e : Editor) → IsEditor (load_text text e)
unfolding load_text
load_text-IsEditor text e = record {
  cursor_in = omega arith;
  short = omega (arith, length-take (hist_len - 1) text);
  ended = entry_end (take (hist_len - 1) text);
}

load_found-IsEditor :
    (found : Option (List ℕ)) {e : Editor} → IsEditor e → IsEditor (load_found found e)
unfolding load_found
load_found-IsEditor none v = v
load_found-IsEditor (some text) {e} v = load_text-IsEditor text e

module _ {e : Editor} (v : IsEditor e) where
  backspace-IsEditor : IsEditor (backspace e)
  unfolding backspace
  backspace-IsEditor = elim (Bool-cases (ltb 0 e.cursor)) [
    | inr z ↦ simp z v
    | inl p ↦ simp p (record {
      cursor_in = omega (arith, v.cursor_in);
      short = omega (arith, v.short);
      ended =
          update_self (shift_down (e.len - 1 - (e.cursor - 1)) (e.cursor - 1) e.buf) (e.len - 1) 0;
    })
  ]

  delete_char-IsEditor : IsEditor (delete_char e)
  unfolding delete_char
  delete_char-IsEditor = elim (Bool-cases (ltb e.cursor e.len)) [
    | inr z ↦ simp z v
    | inl p ↦ simp p (record {
      cursor_in = omega (arith, ltb→lt e.cursor e.len p);
      short = omega (arith, v.short);
      ended = update_self (shift_down (e.len - 1 - e.cursor) e.cursor e.buf) (e.len - 1) 0;
    })
  ]

  insert_char-IsEditor : (key : ℕ) → e.len < hist_len - 1 → IsEditor (insert_char key e)
  unfolding insert_char
  insert_char-IsEditor key room = record {
    cursor_in = omega (arith, v.cursor_in);
    short = omega arith;
    ended =
        update_self (update (shift_up (e.len - e.cursor) e.len e.buf) e.cursor key) (e.len + 1) 0;
  }

  moved-IsEditor : (n : ℕ) → n ≤ e.len → IsEditor (record e { cursor = n })
  moved-IsEditor n le = record { cursor_in = le; short = v.short; ended = v.ended }

  enter_line-IsEditor : IsEditor (enter_line e)
  unfolding enter_line reset_line
  enter_line-IsEditor = record {
    cursor_in = omega arith;
    short = omega arith;
    ended = update_self (update e.buf e.len 0) 0 0;
  }

  history_up-IsEditor : IsEditor (history_up e)
  unfolding history_up load_history_entry
  history_up-IsEditor = elim (Bool-cases (e.nav_pos == 0)) [
    | inl z ↦ rw z (elim (Bool-cases (ltb e.nav_pos e.history.count)) [
      | inl more ↦ rw more (
          load_found-IsEditor _
            (record { cursor_in = v.cursor_in; short = v.short; ended = v.ended }))
      | inr last ↦ rw last (record { cursor_in = v.cursor_in; short = v.short; ended = v.ended })
    ])
    | inr z ↦ rw z (elim (Bool-cases (ltb e.nav_pos e.history.count)) [
      | inl more ↦ rw more (
          load_found-IsEditor _
            (record { cursor_in = v.cursor_in; short = v.short; ended = v.ended }))
      | inr last ↦ rw last v
    ])
  ]

  history_down-IsEditor : IsEditor (history_down e)
  unfolding history_down load_history_entry
  history_down-IsEditor = elim (Bool-cases (ltb 1 e.nav_pos)) [
    | inl p ↦ rw p (
        load_found-IsEditor _
          (record { cursor_in = v.cursor_in; short = v.short; ended = v.ended }))
    | inr p ↦ elim (Bool-cases (e.nav_pos == 1)) [
      | inl q ↦ rw (p, q) (load_text-IsEditor e.pending (record e { nav_pos = 0 }))
      | inr q ↦ rw (p, q) v
    ]
  ]

IsEditor-if :
    (b : Bool) {x y : Editor} → (b ≡ true → IsEditor x) → IsEditor y → IsEditor (if b then x else y)
IsEditor-if true p q = p refl
IsEditor-if false p q = q

handle_key-IsEditor : (key : ℕ) {e : Editor} → IsEditor e → IsEditor (handle_key key e)
unfolding handle_key
handle_key-IsEditor key {e} v =
    IsEditor-if _ (λ t. enter_line-IsEditor v)
      (IsEditor-if _ (λ t. backspace-IsEditor v)
        (IsEditor-if _ (λ t. delete_char-IsEditor v)
          (IsEditor-if _
            (λ t.
              IsEditor-if (ltb 0 e.cursor)
                (λ u. moved-IsEditor v (e.cursor - 1) (omega (arith, v.cursor_in))) v)
            (IsEditor-if _
              (λ t.
                IsEditor-if (ltb e.cursor e.len)
                  (λ u. moved-IsEditor v (e.cursor + 1) (omega (arith, ltb→lt e.cursor e.len u))) v)
              (IsEditor-if _ (λ t. moved-IsEditor v 0 (omega arith))
                (IsEditor-if _ (λ t. moved-IsEditor v e.len (omega arith))
                  (IsEditor-if _ (λ t. history_up-IsEditor v)
                    (IsEditor-if _ (λ t. history_down-IsEditor v)
                      (IsEditor-if (leb 32 key && leb key 126 && ltb e.len (hist_len - 1))
                        (λ t. insert_char-IsEditor v key (room t)) v)))))))))
  where
    room : (leb 32 key && leb key 126 && ltb e.len (hist_len - 1)) ≡ true → e.len < hist_len - 1
    room t = ground arith

-- The keys one after another.
unfoldable pub handle_keys : List ℕ → Editor → Editor
handle_keys [] e = e
handle_keys (key ∷ keys) e = handle_keys keys (handle_key key e)

-- From an editor in order, every sequence of keys leaves the cursor in the line, the line with its NUL
-- inside the buffer of 256 characters, and the NUL at its end.
pub handle_keys-IsEditor : (keys : List ℕ) {e : Editor} → IsEditor e → IsEditor (handle_keys keys e)
unfolding handle_keys
handle_keys-IsEditor [] v = v
handle_keys-IsEditor (key ∷ keys) v = handle_keys-IsEditor keys (handle_key-IsEditor key v)
