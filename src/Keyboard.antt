-- ===== src/Keyboard.antt =====
-- src/drivers/keyboard.c: scan codes of set 1 into characters and key codes, and the modifier state.
pub mod Stream
mod Tests
use heat_os.Prelude.{
  ℕ, zero, suc, ◌+◌, ◌-◌, ◌%◌, Bool, true, false, List, [], ◌∷◌, ltb, leb, ◌==◌, ◌||◌, ◌&&◌, not,
  if◌then◌else◌,
}
use heat_os.Mouse.{Mouse, mouse_handle_aux_byte}

pub record Keyboard : Type 0 where
  pub shift_left : Bool
  pub shift_right : Bool
  pub extended : Bool

-- A byte in the output buffer of the controller, with the AUX bit of the status.
pub data Input : Type 0 where
  aux : ℕ → Input
  key : ℕ → Input

-- The key codes of keyboard.h.
abbrev pub key_up : ℕ
key_up = 0x100

abbrev pub key_down : ℕ
key_down = 0x101

abbrev pub key_left : ℕ
key_left = 0x102

abbrev pub key_right : ℕ
key_right = 0x103

abbrev pub key_enter : ℕ
key_enter = 0x104

abbrev pub key_backspace : ℕ
key_backspace = 0x105

abbrev pub key_home : ℕ
key_home = 0x120

abbrev pub key_end : ℕ
key_end = 0x121

abbrev pub key_delete : ℕ
key_delete = 0x122

-- The two tables, up to the last entry that is not 0; the entries behind them are 0.
unfoldable pub scancode_ascii : List ℕ
scancode_ascii =
    0 ∷ 27 ∷ 49 ∷ 50 ∷ 51 ∷ 52 ∷ 53 ∷ 54 ∷ 55 ∷ 56 ∷ 57 ∷ 48 ∷ 45 ∷ 61 ∷ 8 ∷ 9 ∷ 113 ∷ 119 ∷ 101
    ∷ 114 ∷ 116 ∷ 121 ∷ 117 ∷ 105 ∷ 111 ∷ 112 ∷ 91 ∷ 93 ∷ 13 ∷ 0 ∷ 97 ∷ 115 ∷ 100 ∷ 102 ∷ 103 ∷ 104
    ∷ 106 ∷ 107 ∷ 108 ∷ 59 ∷ 39 ∷ 96 ∷ 0 ∷ 92 ∷ 122 ∷ 120 ∷ 99 ∷ 118 ∷ 98 ∷ 110 ∷ 109 ∷ 44 ∷ 46 ∷ 47
    ∷ 0 ∷ 42 ∷ 0 ∷ 32 ∷ []

unfoldable pub scancode_shift : List ℕ
scancode_shift =
    0 ∷ 27 ∷ 33 ∷ 64 ∷ 35 ∷ 36 ∷ 37 ∷ 94 ∷ 38 ∷ 42 ∷ 40 ∷ 41 ∷ 95 ∷ 43 ∷ 8 ∷ 9 ∷ 81 ∷ 87 ∷ 69 ∷ 82
    ∷ 84 ∷ 89 ∷ 85 ∷ 73 ∷ 79 ∷ 80 ∷ 123 ∷ 125 ∷ 13 ∷ 0 ∷ 65 ∷ 83 ∷ 68 ∷ 70 ∷ 71 ∷ 72 ∷ 74 ∷ 75 ∷ 76
    ∷ 58 ∷ 34 ∷ 126 ∷ 0 ∷ 124 ∷ 90 ∷ 88 ∷ 67 ∷ 86 ∷ 66 ∷ 78 ∷ 77 ∷ 60 ∷ 62 ∷ 63 ∷ 0 ∷ 42 ∷ 0 ∷ 32
    ∷ []

-- An entry of a table.
unfoldable pub entry : List ℕ → ℕ → ℕ
entry [] i = 0
entry (c ∷ t) zero = c
entry (c ∷ t) (suc i) = entry t i

unfoldable pub shift_held : Keyboard → Bool
shift_held k = k.shift_left || k.shift_right

-- The `switch` behind an 0xE0 prefix; 0 is its `continue`.
unfoldable pub extended_key : ℕ → ℕ
extended_key code =
    if code == 0x48
    then key_up
    else if code == 0x50
    then key_down
    else if code == 0x4B
    then key_left
    else if code == 0x4D
    then key_right
    else if code == 0x47
    then key_home
    else if code == 0x4F
    then key_end
    else if code == 0x53
    then key_delete
    else if code == 0x49
    then 0x123
    else if code == 0x51
    then 0x124
    else 0

-- The `switch` without one; 0 is its `break`.
unfoldable pub special_key : ℕ → ℕ
special_key code =
    if code == 0x01
    then 0x106
    else if code == 0x0E
    then key_backspace
    else if code == 0x0F
    then 0x107
    else if code == 0x1C
    then key_enter
    else if code == 0x3B
    then 0x110
    else if code == 0x3C
    then 0x111
    else if code == 0x3D
    then 0x112
    else if code == 0x3E
    then 0x113
    else if code == 0x44
    then 0x119
    else if code == 0x48
    then key_up
    else if code == 0x50
    then key_down
    else if code == 0x4B
    then key_left
    else if code == 0x4D
    then key_right
    else 0

-- The key of a code that is pressed, by the modifiers; 0 if it has none.
unfoldable pub plain_key : ℕ → Keyboard → ℕ
unfolding special_key entry scancode_shift scancode_ascii shift_held
plain_key code k =
    let special = special_key code in
    let character = entry (if shift_held k then scancode_shift else scancode_ascii) code in
    if special == 0 then character else special

-- The body of the loop of `keyboard_poll` for one byte of the keyboard: the key that it returns, or 0
-- where it goes round again.
unfoldable pub handle_scancode : ℕ → Keyboard → ℕ × Keyboard
unfolding plain_key extended_key
handle_scancode sc k =
    let released = leb 0x80 sc in
    let code = sc % 0x80 in
    if sc == 0xE0
    then (0, record k { extended = true })
    else if sc == 0xE1
    then (0, record k { extended = false })
    else if code == 0x2A
    then (0, record k { shift_left = not released })
    else if code == 0x36
    then (0, record k { shift_right = not released })
    else if released
    then (0, record k { extended = false })
    else if k.extended
    then (extended_key code, record k { extended = false })
    else (plain_key code k, k)

-- The keyboard, the mouse and the bytes that are still in the controller.
pub record Console : Type 0 where
  pub keyboard : Keyboard
  pub mouse : Mouse
  pub pending : List Input

-- `keyboard_poll` on the bytes that arrive before it returns: the key, or 0 when none is left.
unfoldable pub poll : List Input → Keyboard → Mouse → ℕ × Console
poll [] k m = (0, record { keyboard = k; mouse = m; pending = [] })
poll (aux b ∷ inputs) k m = poll inputs k (mouse_handle_aux_byte b m)
poll (key sc ∷ inputs) k m =
    let (code, k') = handle_scancode sc k in
    let rest = poll inputs k' m in
    if code == 0 then rest else (code, record { keyboard = k'; mouse = m; pending = inputs })

unfoldable pub keyboard_poll : Console → ℕ × Console
unfolding poll
keyboard_poll c = poll c.pending c.keyboard c.mouse

-- `keyboard_has_key`: the mouse bytes in front of a keyboard byte are handed on.
unfoldable pub has_key : List Input → Mouse → Bool × Mouse × List Input
has_key [] m = (false, m, [])
has_key (aux b ∷ inputs) m = has_key inputs (mouse_handle_aux_byte b m)
has_key (key sc ∷ inputs) m = (true, m, key sc ∷ inputs)
