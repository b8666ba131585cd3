-- ===== src/Terminal.antt =====
-- src/terminal/terminal.c: the history of commands, the line editor and the cursor of the screen. What
-- is drawn is left out, and so is what a command does: Enter hands the command on.
pub mod Cursor
pub mod Recall
pub mod TakeBack
mod Tests
pub mod Typing
use heat_os.Prelude.{
  ℕ, zero, suc, ◌+◌, ◌-◌, ◌*◌, ◌%◌, Bool, true, false, Option, none, some, List, [], ◌∷◌, ltb, leb,
  ◌==◌, ◌||◌, ◌&&◌, not, if◌then◌else◌, update, take, length,
}
use heat_os.Keyboard.{
  key_up, key_down, key_left, key_right, key_enter, key_backspace, key_home, key_end, key_delete,
  entry,
}

abbrev pub hist_size : ℕ
hist_size = 50

abbrev pub hist_len : ℕ
hist_len = 256

-- The statics `g_history`, `g_hist_count` and `g_hist_next`.
pub record History : Type 0 where
  pub entries : ℕ → List ℕ
  pub count : ℕ
  pub next : ℕ

unfoldable pub hist_add : List ℕ → History → History
hist_add [] h = h
hist_add (c ∷ cmd) h = record {
  entries = update h.entries h.next (take (hist_len - 1) (c ∷ cmd));
  count = if ltb h.count hist_size then h.count + 1 else h.count;
  next = (h.next + 1) % hist_size;
}

-- `none` is the null pointer.
unfoldable pub hist_get : ℕ → History → Option (List ℕ)
hist_get steps_back h =
    if ltb steps_back 1 || ltb h.count steps_back
    then none
    else some (h.entries ((h.next + hist_size * 2 - steps_back) % hist_size))

-- The line editor: `cmdbuf` with its two positions, the history, and the walk through it.
pub record Editor : Type 0 where
  pub buf : ℕ → ℕ
  pub len : ℕ
  pub cursor : ℕ
  pub history : History
  pub pending : List ℕ
  pub nav_pos : ℕ

-- `for (int i = from; i < cmdlen - 1; i++) cmdbuf[i] = cmdbuf[i + 1];`, `n` rounds of it.
unfoldable pub shift_down : ℕ → ℕ → (ℕ → ℕ) → ℕ → ℕ
shift_down zero i buf = buf
shift_down (suc n) i buf = shift_down n (suc i) (update buf i (buf (suc i)))

-- `for (int i = cmdlen; i > cursor_pos; i--) cmdbuf[i] = cmdbuf[i - 1];`, `n` rounds of it.
unfoldable pub shift_up : ℕ → ℕ → (ℕ → ℕ) → ℕ → ℕ
shift_up zero i buf = buf
shift_up (suc n) i buf = shift_up n (i - 1) (update buf i (buf (i - 1)))

-- The string at index `i` of an array, `n` bytes at most.
unfoldable pub string_at : ℕ → ℕ → (ℕ → ℕ) → List ℕ
string_at zero i buf = []
string_at (suc n) i buf =
    let rest = string_at n (suc i) buf in if buf i == 0 then [] else buf i ∷ rest

-- `strncpy(cmdbuf, text, HIST_LEN - 1)` with what follows it: the rest is filled with NULs.
unfoldable pub load_text : List ℕ → Editor → Editor
load_text text e =
    let copied = take (hist_len - 1) text in
    record e { buf = entry copied; len = length copied; cursor = length copied }

unfoldable pub load_found : Option (List ℕ) → Editor → Editor
unfolding load_text
load_found none e = e
load_found (some text) e = load_text text e

unfoldable pub load_history_entry : ℕ → Editor → Editor
load_history_entry steps_back e = load_found (hist_get steps_back e.history) e

-- The line is empty.
unfoldable pub reset_line : Editor → Editor
reset_line e = record e { len = 0; cursor = 0; buf = update e.buf 0 0 }

-- Enter: the NUL behind the line, the history, and the empty line for the next command.
unfoldable pub enter_line : Editor → Editor
unfolding reset_line
enter_line e =
    let buf = update e.buf e.len 0 in
    let added = hist_add (string_at hist_len 0 buf) e.history in
    reset_line
      (record e { buf = buf; nav_pos = 0; history = if ltb 0 e.len then added else e.history })

unfoldable pub backspace : Editor → Editor
backspace e =
    let len = e.len - 1 in
    let shifted = shift_down (e.len - 1 - (e.cursor - 1)) (e.cursor - 1) e.buf in
    if ltb 0 e.cursor
    then record e { buf = update shifted len 0; len = len; cursor = e.cursor - 1 }
    else e

unfoldable pub delete_char : Editor → Editor
delete_char e =
    let len = e.len - 1 in
    let shifted = shift_down (e.len - 1 - e.cursor) e.cursor e.buf in
    if ltb e.cursor e.len then record e { buf = update shifted len 0; len = len } else e

unfoldable pub insert_char : ℕ → Editor → Editor
insert_char key e =
    let shifted = shift_up (e.len - e.cursor) e.len e.buf in
    record e {
      buf = update (update shifted e.cursor key) (e.len + 1) 0;
      len = e.len + 1;
      cursor = e.cursor + 1;
    }

unfoldable pub history_up : Editor → Editor
history_up e =
    let kept : Editor =
      if e.nav_pos == 0 then record e { pending = string_at (hist_len - 1) 0 e.buf } else e in
    if ltb e.nav_pos e.history.count
    then load_history_entry (e.nav_pos + 1) (record kept { nav_pos = e.nav_pos + 1 })
    else kept

unfoldable pub history_down : Editor → Editor
unfolding load_text
history_down e =
    if ltb 1 e.nav_pos
    then load_history_entry (e.nav_pos - 1) (record e { nav_pos = e.nav_pos - 1 })
    else if e.nav_pos == 1
    then load_text e.pending (record e { nav_pos = 0 })
    else e

-- One key of the loop of `terminal_run`.
unfoldable pub handle_key : ℕ → Editor → Editor
handle_key key e =
    if (key == key_enter) || (key == b'\n')
    then enter_line e
    else if (key == key_backspace) || (key == 8)
    then backspace e
    else if key == key_delete
    then delete_char e
    else if key == key_left
    then (if ltb 0 e.cursor then record e { cursor = e.cursor - 1 } else e)
    else if key == key_right
    then (if ltb e.cursor e.len then record e { cursor = e.cursor + 1 } else e)
    else if key == key_home
    then record e { cursor = 0 }
    else if key == key_end
    then record e { cursor = e.len }
    else if key == key_up
    then history_up e
    else if key == key_down
    then history_down e
    else if leb 32 key && leb key 126 && ltb e.len (hist_len - 1)
    then insert_char key e
    else e
