-- ===== src/Keyboard/Stream.antt =====
-- `keyboard_poll` of src/drivers/keyboard.c on a stream of bytes from keyboard and mouse.
use heat_os.Prelude.{◌≡◌, refl, List, [], ◌∷◌, ◌++◌, ◌==◌, Bool-cases, inl, inr, ==-false}
use heat_os.Mouse.{Mouse, mouse_handle_aux_byte}
use heat_os.Keyboard.{Keyboard, Input, aux, key, handle_scancode, poll}

-- The bytes of the keyboard, and those of the mouse.
pub key_bytes : List Input → List Input
key_bytes [] = []
key_bytes (aux b ∷ inputs) = key_bytes inputs
key_bytes (key sc ∷ inputs) = key sc ∷ key_bytes inputs

-- Bytes of the mouse change neither the key that a poll returns nor the state of the keyboard behind
-- it, wherever they stand among those of the keyboard.
pub poll-key_bytes :
    (inputs : List Input) (k : Keyboard) (m m' : Mouse)
    → let (code, c) = poll inputs k m in
      let (code', c') = poll (key_bytes inputs) k m' in
      (code ≡ code') × (c.keyboard ≡ c'.keyboard) × (key_bytes c.pending ≡ c'.pending)
unfolding poll key_bytes
poll-key_bytes [] k m m' = (refl, refl, refl)
poll-key_bytes (aux b ∷ inputs) k m m' = poll-key_bytes inputs k (mouse_handle_aux_byte b m) m'
poll-key_bytes (key sc ∷ inputs) k m m' = elim (Bool-cases ((handle_scancode sc k).0 == 0)) [
  | inl e ↦ rw e (poll-key_bytes inputs (handle_scancode sc k).1 m m')
  | inr e ↦ rw e (refl, refl, refl)
]

-- A poll that finds no key has taken every byte, and what arrives later is handled as if it had been
-- there: polling at once and polling again give the same key and the same state.
pub poll-append :
    (early late : List Input) (k : Keyboard) (m : Mouse)
    → (poll early k m).0 ≡ 0
    → let c = (poll early k m).1 in
      (c.pending ≡ []) × (poll (early ++ late) k m ≡ poll late c.keyboard c.mouse)
unfolding poll
poll-append [] late k m e = (refl, refl)
poll-append (aux b ∷ early) late k m e = poll-append early late k (mouse_handle_aux_byte b m) e
poll-append (key sc ∷ early) late k m e = elim (Bool-cases ((handle_scancode sc k).0 == 0)) [
  | inl z ↦ rw z (poll-append early late (handle_scancode sc k).1 m (rw z at e))
  | inr nz ↦ absurd (==-false (handle_scancode sc k).0 0 nz (rw nz at e))
]
