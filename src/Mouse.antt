-- ===== src/Mouse.antt =====
-- src/drivers/mouse.c: packets of three bytes from the auxiliary port, and the pointer on the screen.
pub mod Screen
mod Tests
use Prim.Native.Nat.{bit_and}
use heat_os.Prelude.{
  ℕ, zero, suc, ◌+◌, ◌-◌, ◌/◌, ◌%◌, Bool, true, false, ltb, leb, ◌==◌, ◌||◌, ◌&&◌, not,
  if◌then◌else◌, ℤ, pos, negsuc, sub_ℕ, ◌+ℤ◌, ◌-ℤ◌,
}

abbrev pub vga_width : ℕ
vga_width = 80

abbrev pub vga_height : ℕ
vga_height = 25

-- The statics of mouse.c; `packet0` and `packet1` are the bytes of `g_packet` that are read later.
pub record Mouse : Type 0 where
  pub x : ℤ
  pub y : ℤ
  pub dx_accum : ℤ
  pub dy_accum : ℤ
  pub buttons : ℕ
  pub has_event : Bool
  pub ready : Bool
  pub packet0 : ℕ
  pub packet1 : ℕ
  pub packet_idx : ℕ

-- `clampi(v, 0, hi)`
unfoldable pub clampi : ℤ → ℕ → ℤ
clampi (negsuc n) hi = pos 0
clampi (pos n) hi = if ltb hi n then pos hi else pos n

-- `(int)(int8_t)b`
unfoldable pub int8 : ℕ → ℤ
int8 b = if ltb b 128 then pos b else negsuc (255 - b)

unfoldable pub mouse_process_packet : ℕ → ℕ → ℕ → Mouse → Mouse
mouse_process_packet b0 b1 b2 m =
    let dx = int8 b1 in
    let dy = int8 b2 in
    let new_buttons = bit_and b0 7 in
    let moved = not (b1 == 0) || not (b2 == 0) || not (new_buttons == m.buttons) in
    let shifted : Mouse = record m {
      dx_accum = m.dx_accum +ℤ dx;
      dy_accum = m.dy_accum -ℤ dy;
      x = clampi (m.x +ℤ dx) (vga_width - 1);
      y = clampi (m.y -ℤ dy) (vga_height - 1);
      has_event = moved || m.has_event;
      buttons = new_buttons;
    } in
    if bit_and b0 0xC0 == 0 then shifted else m

unfoldable pub mouse_handle_aux_byte : ℕ → Mouse → Mouse
mouse_handle_aux_byte b m =
    if not m.ready
    then m
    else if (m.packet_idx == 0) && (bit_and b 8 == 0)
    then m
    else if m.packet_idx == 0
    then record m { packet0 = b; packet_idx = 1 }
    else if m.packet_idx == 1
    then record m { packet1 = b; packet_idx = 2 }
    else record (mouse_process_packet m.packet0 m.packet1 b m) { packet_idx = 0 }

unfoldable pub mouse_set_screen_pos : ℤ → ℤ → Mouse → Mouse
mouse_set_screen_pos x y m = record m {
  x = clampi x (vga_width - 1);
  y = clampi y (vga_height - 1);
}

unfoldable pub mouse_get_delta : Mouse → (ℤ × ℤ) × Mouse
mouse_get_delta m = ((m.dx_accum, m.dy_accum), record m { dx_accum = pos 0; dy_accum = pos 0 })

unfoldable pub mouse_get_screen_pos : Mouse → ℤ × ℤ
mouse_get_screen_pos m = (m.x, m.y)

unfoldable pub mouse_get_buttons : Mouse → ℕ
mouse_get_buttons m = m.buttons

unfoldable pub mouse_has_event : Mouse → Bool
mouse_has_event m = m.has_event

unfoldable pub mouse_clear_event : Mouse → Mouse
mouse_clear_event m = record m { has_event = false }
