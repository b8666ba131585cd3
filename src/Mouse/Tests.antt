-- ===== src/Mouse/Tests.antt =====
-- Runs of src/drivers/mouse.c.
use heat_os.Prelude.{true, false, [], ◌∷◌, pos, arith}
use heat_os.Mouse.{Mouse}
use heat_os.Mouse.Screen.{IsOnScreen, feed, feed-IsOnScreen}

-- The pointer in the middle, as `mouse_init` leaves it.
abbrev start : Mouse
start = record {
  x = pos 40;
  y = pos 12;
  dx_accum = pos 0;
  dy_accum = pos 0;
  buttons = 0;
  has_event = false;
  ready = true;
  packet0 = 0;
  packet1 = 0;
  packet_idx = 0;
}

start-IsOnScreen : IsOnScreen start
start-IsOnScreen = record { column = omega arith; row = omega arith; index = omega arith }

-- A packet of 100 to the right and 5 up, then half of another one.
feed-IsOnScreen_example : IsOnScreen (feed (9 ∷ 100 ∷ 5 ∷ 8 ∷ []) start)
feed-IsOnScreen_example = feed-IsOnScreen (9 ∷ 100 ∷ 5 ∷ 8 ∷ []) start-IsOnScreen
