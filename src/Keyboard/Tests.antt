-- ===== src/Keyboard/Tests.antt =====
-- Runs of src/drivers/keyboard.c.
use heat_os.Prelude.{◌≡◌, refl, false, List, [], ◌∷◌, ◌++◌, pos}
use heat_os.Mouse.{Mouse}
use heat_os.Keyboard.{Keyboard, Input, aux, key, poll, handle_scancode}
use heat_os.Keyboard.Stream.{key_bytes, poll-key_bytes, poll-append}

abbrev rest : Mouse
rest = record {
  x = pos 40;
  y = pos 12;
  dx_accum = pos 0;
  dy_accum = pos 0;
  buttons = 0;
  has_event = false;
  ready = false;
  packet0 = 0;
  packet1 = 0;
  packet_idx = 0;
}

abbrev idle : Keyboard
idle = record { shift_left = false; shift_right = false; extended = false }

-- The left shift key goes down.
abbrev early : List Input
early = key 0x2A ∷ []

-- A byte of the mouse, then the key A.
abbrev late : List Input
late = aux 8 ∷ key 0x1E ∷ []

early_no_key : (poll early idle rest).0 ≡ 0
unfolding poll handle_scancode
early_no_key = refl

poll-key_bytes_example :
    let (code, c) = poll (early ++ late) idle rest in
    let (code', c') = poll (key_bytes (early ++ late)) idle rest in
    (code ≡ code') × (c.keyboard ≡ c'.keyboard) × (key_bytes c.pending ≡ c'.pending)
poll-key_bytes_example = poll-key_bytes (early ++ late) idle rest rest

poll-append_example :
    let c = (poll early idle rest).1 in
    (c.pending ≡ []) × (poll (early ++ late) idle rest ≡ poll late c.keyboard c.mouse)
poll-append_example = poll-append early late idle rest early_no_key
