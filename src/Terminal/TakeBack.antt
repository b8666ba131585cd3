-- ===== src/Terminal/TakeBack.antt =====
-- The line editor of src/terminal/terminal.c: a character that is typed and taken back leaves the line as
-- it was.
use heat_os.Prelude.{
  ℕ, zero, suc, ◌+◌, ◌-◌, ◌≤◌, ◌<◌, ◌≡◌, refl, sym, ap, ◌∙◌, arith, lt→ltb, le→leb, ne→==-false,
  update, update_self, update_ne,
}
use native.Mathlib.Decide.{dec_lt, ℕ_discrete}
use heat_os.Keyboard.{key_backspace}
use heat_os.Terminal.{Editor, hist_len, shift_down, shift_up, backspace, insert_char, handle_key}
use heat_os.Terminal.Typing.{IsEditor}

shift_down-below : (n i j : ℕ) (buf : ℕ → ℕ) → j < i → shift_down n i buf j ≡ buf j
unfolding shift_down
shift_down-below zero i j buf h = refl
shift_down-below (suc n) i j buf h =
    shift_down-below n (suc i) j (update buf i (buf (suc i))) (omega arith)
    ∙ update_ne buf i j (buf (suc i)) (λ e. omega arith)

shift_down-inside :
    (n i j : ℕ) (buf : ℕ → ℕ) → i ≤ j → j < i + n → shift_down n i buf j ≡ buf (suc j)
unfolding shift_down
shift_down-inside zero i j buf h u = absurd (omega arith)
shift_down-inside (suc n) i j buf h u = elim (ℕ_discrete i j) [
  | yes e ↦ rw (sym e) (
      shift_down-below n (suc i) i (update buf i (buf (suc i))) (omega arith)
      ∙ update_self buf i (buf (suc i)))
  | no ne ↦
      shift_down-inside n (suc i) j (update buf i (buf (suc i))) (omega arith) (omega arith)
      ∙ update_ne buf i (suc j) (buf (suc i)) (λ e. omega arith)
]

shift_up-above : (n i j : ℕ) (buf : ℕ → ℕ) → i < j → shift_up n i buf j ≡ buf j
unfolding shift_up
shift_up-above zero i j buf h = refl
shift_up-above (suc n) i j buf h =
    shift_up-above n (i - 1) j (update buf i (buf (i - 1))) (omega arith)
    ∙ update_ne buf i j (buf (i - 1)) (λ e. omega arith)

shift_up-below : (n i j : ℕ) (buf : ℕ → ℕ) → j + n ≤ i → shift_up n i buf j ≡ buf j
unfolding shift_up
shift_up-below zero i j buf h = refl
shift_up-below (suc n) i j buf h =
    shift_up-below n (i - 1) j (update buf i (buf (i - 1))) (omega arith)
    ∙ update_ne buf i j (buf (i - 1)) (λ e. omega arith)

shift_up-inside :
    (n i j : ℕ) (buf : ℕ → ℕ) → j ≤ i → i < j + n → n ≤ i → shift_up n i buf j ≡ buf (j - 1)
unfolding shift_up
shift_up-inside zero i j buf h u l = absurd (omega arith)
shift_up-inside (suc n) i j buf h u l = elim (ℕ_discrete i j) [
  | yes e ↦ rw (sym e) (
      shift_up-above n (i - 1) i (update buf i (buf (i - 1))) (omega arith)
      ∙ update_self buf i (buf (i - 1)))
  | no ne ↦
      shift_up-inside n (i - 1) j (update buf i (buf (i - 1))) (omega arith) (omega arith)
        (omega arith)
      ∙ update_ne buf i (j - 1) (buf (i - 1)) (λ e. omega arith)
]

handle_key-printable :
    (key : ℕ) (e : Editor)
    → 32 ≤ key
    → key ≤ 126
    → e.len < hist_len - 1
    → handle_key key e ≡ insert_char key e
unfolding handle_key
handle_key-printable key e low high room =
    rw
      (
        ne→==-false key 0x104 (λ w. omega arith),
        ne→==-false key 10 (λ w. omega arith),
        ne→==-false key 0x105 (λ w. omega arith),
        ne→==-false key 8 (λ w. omega arith),
        ne→==-false key 0x122 (λ w. omega arith),
        ne→==-false key 0x102 (λ w. omega arith),
        ne→==-false key 0x103 (λ w. omega arith),
        ne→==-false key 0x120 (λ w. omega arith),
        ne→==-false key 0x121 (λ w. omega arith),
        ne→==-false key 0x100 (λ w. omega arith),
        ne→==-false key 0x101 (λ w. omega arith),
        le→leb 32 key low,
        le→leb key 126 high,
        lt→ltb e.len 255 room,
      )
      refl

module _ (key : ℕ) {e : Editor} (v : IsEditor e) where
  inserted : ℕ → ℕ
  inserted = update (update (shift_up (e.len - e.cursor) e.len e.buf) e.cursor key) (e.len + 1) 0

  inserted-below : (j : ℕ) → j < e.cursor → inserted j ≡ e.buf j
  unfolding inserted
  inserted-below j h =
      update_ne (update (shift_up (e.len - e.cursor) e.len e.buf) e.cursor key) (e.len + 1) j 0
        (λ w. omega (arith, v.cursor_in))
      ∙ (update_ne (shift_up (e.len - e.cursor) e.len e.buf) e.cursor j key (λ w. omega arith)
          ∙ shift_up-below (e.len - e.cursor) e.len j e.buf (omega (arith, v.cursor_in)))

  inserted-above : (j : ℕ) → e.cursor ≤ j → j < e.len → inserted (suc j) ≡ e.buf j
  unfolding inserted
  inserted-above j h u =
      update_ne (update (shift_up (e.len - e.cursor) e.len e.buf) e.cursor key) (e.len + 1) (suc j)
        0 (λ w. omega arith)
      ∙ (update_ne (shift_up (e.len - e.cursor) e.len e.buf) e.cursor (suc j) key (λ w. omega arith)
          ∙ (shift_up-inside (e.len - e.cursor) e.len (suc j) e.buf (omega arith) (omega arith)
                (omega arith)
              ∙ ap e.buf same))
    where
      same : suc j - 1 ≡ j
      same = omega arith

  taken_back :
      (j : ℕ)
      → j ≤ e.len
      → update (shift_down (e.len - e.cursor) e.cursor inserted) e.len 0 j ≡ e.buf j
  taken_back j h = elim (ℕ_discrete e.len j) [
    | yes w ↦
        rw (sym w)
          (update_self (shift_down (e.len - e.cursor) e.cursor inserted) e.len 0 ∙ sym v.ended)
    | no ne ↦
        update_ne (shift_down (e.len - e.cursor) e.cursor inserted) e.len j 0 ne
        ∙ elim (dec_lt j e.cursor) [
          | yes low ↦
              shift_down-below (e.len - e.cursor) e.cursor j inserted low ∙ inserted-below j low
          | no high ↦
              shift_down-inside (e.len - e.cursor) e.cursor j inserted (omega arith) (omega arith)
              ∙ inserted-above j (omega arith) (omega arith)
        ]
  ]

  taken_at :
      (l c j : ℕ)
      → l ≡ e.len
      → c ≡ e.cursor
      → j ≤ e.len
      → update (shift_down (l - c) c inserted) l 0 j ≡ e.buf j
  taken_at l c j same_l same_c h = rw (same_l, same_c) (taken_back j h)

  back :
      (j : ℕ)
      → j ≤ e.len
      → let e' = handle_key key_backspace (insert_char key e) in
        (e'.len ≡ e.len) × (e'.cursor ≡ e.cursor) × (e'.buf j ≡ e.buf j)
  unfolding handle_key backspace insert_char inserted
  back j h = rw (lt→ltb 0 (e.cursor + 1) (omega arith)) (
    omega arith,
    omega arith,
    taken_at (e.len + 1 - 1) (e.cursor + 1 - 1) j (omega arith) (omega arith) h,
  )

-- In a line with room, a printable character typed at the cursor and taken back with Backspace leaves the
-- length, the cursor and every character of the line as they were.
pub backspace-handle_key :
    (key : ℕ) {e : Editor}
    → IsEditor e
    → 32 ≤ key
    → key ≤ 126
    → e.len < hist_len - 1
    → (j : ℕ) → j ≤ e.len
    → let e' = handle_key key_backspace (handle_key key e) in
      (e'.len ≡ e.len) × (e'.cursor ≡ e.cursor) × (e'.buf j ≡ e.buf j)
backspace-handle_key key {e} v low high room j h =
    rw (handle_key-printable key e low high room) (back key v j h)
