-- ===== src/Terminal/Tests.antt =====
-- Runs of src/terminal/terminal.c.
use heat_os.Prelude.{ℕ, ◌≡◌, refl, none, List, [], ◌∷◌, arith, ltb, if◌then◌else◌}
use heat_os.Keyboard.{key_backspace, key_left, key_up}
use heat_os.Terminal.{Editor, History, hist_size, hist_get, handle_key}
use heat_os.Terminal.Cursor.{Screen, IsInside, term_puts, term_puts-IsInside}
use heat_os.Terminal.Recall.{adds, remember, nth, hist_get-adds}
use heat_os.Terminal.Typing.{IsEditor, handle_keys, handle_keys-IsEditor}
use heat_os.Terminal.TakeBack.{backspace-handle_key}

abbrev no_history : History
no_history = record { entries = λ i. []; count = 0; next = 0 }

abbrev idle : Editor
idle = record { buf = λ i. 0; len = 0; cursor = 0; history = no_history; pending = []; nav_pos = 0 }

idle-IsEditor : IsEditor idle
idle-IsEditor = record { cursor_in = omega arith; short = omega arith; ended = refl }

-- `ls`, Left, `x`, Enter, Up
abbrev keys : List ℕ
keys = b'l' ∷ b's' ∷ key_left ∷ b'x' ∷ 10 ∷ key_up ∷ []

abbrev commands : List (List ℕ)
commands = (b'l' ∷ b's' ∷ []) ∷ [] ∷ (b'p' ∷ b's' ∷ []) ∷ []

hist_get-adds_example :
    hist_get 2 (adds commands no_history)
    ≡ (if ltb 1 hist_size then nth 1 (remember commands []) else none)
hist_get-adds_example = hist_get-adds commands 1 no_history refl (omega arith)

handle_keys-IsEditor_example : IsEditor (handle_keys keys idle)
handle_keys-IsEditor_example = handle_keys-IsEditor keys idle-IsEditor

backspace-handle_key_example :
    let e' = handle_key key_backspace (handle_key b'q' idle) in
    (e'.len ≡ 0) × (e'.cursor ≡ 0) × (e'.buf 0 ≡ 0)
backspace-handle_key_example =
    backspace-handle_key b'q' idle-IsEditor (omega arith) (omega arith) (omega arith) 0
      (omega arith)

abbrev top : Screen
top = record { cursor_x = 0; cursor_y = 0; edit_row = 0; scrolled = 0 }

term_puts-IsInside_example : IsInside (term_puts (b'H' ∷ 10 ∷ 8 ∷ []) top)
term_puts-IsInside_example =
    term_puts-IsInside (b'H' ∷ 10 ∷ 8 ∷ []) (record { column = omega arith; row = omega arith })
