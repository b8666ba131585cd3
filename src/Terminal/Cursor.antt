-- ===== src/Terminal/Cursor.antt =====
-- `term_putc` of src/terminal/terminal.c: where the cursor goes.
use heat_os.Prelude.{ℕ, ◌+◌, ◌-◌, ◌<◌, List, [], ◌∷◌, ltb, leb, ◌==◌, if◌then◌else◌, arith}
use heat_os.Mouse.{vga_width, vga_height}

-- `cursor_x`, `cursor_y` and `edit_row`, with the number of times that the screen has scrolled up.
pub record Screen : Type 0 where
  pub cursor_x : ℕ
  pub cursor_y : ℕ
  pub edit_row : ℕ
  pub scrolled : ℕ

unfoldable pub advance : ℕ → Screen → Screen
advance c s =
    if c == b'\n'
    then record s { cursor_x = 0; cursor_y = s.cursor_y + 1 }
    else if c == 8
    then (if ltb 0 s.cursor_x then record s { cursor_x = s.cursor_x - 1 } else s)
    else if leb vga_width (s.cursor_x + 1)
    then record s { cursor_x = 0; cursor_y = s.cursor_y + 1 }
    else record s { cursor_x = s.cursor_x + 1 }

unfoldable pub scroll : Screen → Screen
scroll s =
    if leb vga_height s.cursor_y
    then record s {
      cursor_y = vga_height - 1;
      edit_row = vga_height - 1;
      scrolled = s.scrolled + 1;
    }
    else s

unfoldable pub term_putc : ℕ → Screen → Screen
unfolding advance scroll
term_putc c s = scroll (advance c s)

unfoldable pub term_puts : List ℕ → Screen → Screen
unfolding term_putc
term_puts [] s = s
term_puts (c ∷ text) s = term_puts text (term_putc c s)

pub record IsInside (s : Screen) : Type 0 where
  pub column : s.cursor_x < vga_width
  pub row : s.cursor_y < vga_height

term_putc-IsInside : (c : ℕ) {s : Screen} → IsInside s → IsInside (term_putc c s)
unfolding term_putc advance scroll
term_putc-IsInside c v = ground arith

-- Whatever text is put, a cursor inside the screen stays inside it.
pub term_puts-IsInside : (text : List ℕ) {s : Screen} → IsInside s → IsInside (term_puts text s)
unfolding term_puts
term_puts-IsInside [] v = v
term_puts-IsInside (c ∷ text) v = term_puts-IsInside text (term_putc-IsInside c v)
