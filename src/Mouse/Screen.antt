-- ===== src/Mouse/Screen.antt =====
-- The pointer of src/drivers/mouse.c stays on the screen, whatever bytes arrive.
use Prim.Native.Nat.{bit_and}
use heat_os.Prelude.{
  ℕ, ◌≤◌, ◌<◌, List, [], ◌∷◌, ℤ, pos, negsuc, arith, ◌==◌, ltb, Bool-cases, inl, inr, ltb-false,
}
use heat_os.Mouse.{
  Mouse, vga_width, vga_height, clampi, mouse_process_packet, mouse_handle_aux_byte,
}

-- An integer from 0 up to below a bound.
abbrev pub Within : ℤ → ℕ → Type 0
Within (pos n) w = n < w
Within (negsuc n) w = ⊥

pub record IsOnScreen (m : Mouse) : Type 0 where
  pub column : Within m.x vga_width
  pub row : Within m.y vga_height
  pub index : m.packet_idx < 3

clampi-Within : (v : ℤ) (hi w : ℕ) → hi < w → Within (clampi v hi) w
unfolding clampi
clampi-Within (negsuc n) hi w h = omega arith
clampi-Within (pos n) hi w h = elim (Bool-cases (ltb hi n)) [
  | inl e ↦ rw e h
  | inr e ↦ rw e (below (ltb-false hi n e))
]
  where
    below : n ≤ hi → n < w
    below le = omega arith

-- The bytes of a stream, one after another.
pub feed : List ℕ → Mouse → Mouse
feed [] m = m
feed (b ∷ bs) m = feed bs (mouse_handle_aux_byte b m)

mouse_process_packet-Within :
    (b0 b1 b2 : ℕ) {m : Mouse}
    → IsOnScreen m
    → Within (mouse_process_packet b0 b1 b2 m).x vga_width
      × Within (mouse_process_packet b0 b1 b2 m).y vga_height
unfolding mouse_process_packet
mouse_process_packet-Within b0 b1 b2 {m} v = elim (Bool-cases (bit_and b0 0xC0 == 0)) [
  | inl e ↦
      rw e (clampi-Within _ 79 vga_width (omega arith), clampi-Within _ 24 vga_height (omega arith))
  | inr e ↦ rw e (v.column, v.row)
]

mouse_handle_aux_byte-IsOnScreen :
    (b : ℕ) {m : Mouse} → IsOnScreen m → IsOnScreen (mouse_handle_aux_byte b m)
unfolding mouse_handle_aux_byte
mouse_handle_aux_byte-IsOnScreen b {m} v = elim (Bool-cases m.ready) [
  | inr off ↦ simp off v
  | inl on ↦ elim (Bool-cases (m.packet_idx == 0)) [
    | inl first ↦ elim (Bool-cases (bit_and b 8 == 0)) [
      | inl skip ↦ simp (on, first, skip) v
      | inr ok ↦
          simp (on, first, ok) (record { column = v.column; row = v.row; index = omega arith })
    ]
    | inr later ↦ elim (Bool-cases (m.packet_idx == 1)) [
      | inl second ↦
          simp (on, later, second) (record { column = v.column; row = v.row; index = omega arith })
      | inr third ↦
          simp (on, later, third)
            (record {
              column = (mouse_process_packet-Within m.packet0 m.packet1 b v).0;
              row = (mouse_process_packet-Within m.packet0 m.packet1 b v).1;
              index = omega arith;
            })
    ]
  ]
]

-- From a pointer on the screen every stream of bytes leaves it there, with a packet index below 3.
pub feed-IsOnScreen : (bs : List ℕ) {m : Mouse} → IsOnScreen m → IsOnScreen (feed bs m)
unfolding feed
feed-IsOnScreen [] v = v
feed-IsOnScreen (b ∷ bs) v = feed-IsOnScreen bs (mouse_handle_aux_byte-IsOnScreen b v)
