-- ===== src/Tests/Keys.antt =====
-- The keyboard driver on a few scancodes.
use orbit_os.Base.{ℕ, List, ◌≡◌, refl, arith, [], ◌∷◌}
use orbit_os.Keyboard.{idle, callback, callbacks, getchar, translate, push}
use orbit_os.Keyboard.{scancode_ascii_lower, scancode_ascii_upper}
use orbit_os.Keyboard.Ring.{IsValid, contents}
use orbit_os.Keyboard.Refine.{view, key, view-callback}
use orbit_os.Keyboard.Reading.{read, seen, getchar-read}

idle-IsValid : IsValid idle
idle-IsValid = omega arith

-- Shift, q, shift released, w: "Qw".
typed : contents (callbacks (0x2A ∷ 0x10 ∷ 0x90 ∷ 0xAA ∷ 0x11 ∷ []) idle) ≡ b'Q' ∷ b'w' ∷ []
unfolding callbacks callback push translate scancode_ascii_lower scancode_ascii_upper
typed = refl

view-callback_example : view (callback 0x10 idle) ≡ key 0x10 (view idle)
view-callback_example = view-callback 0x10 idle (omega arith) idle-IsValid

-- A release and a tick of the timer end two rounds; in the third a key arrives before the `hlt`, and
-- its release ends it; another key arrives inside the call.
abbrev rounds : List (List ℕ)
rounds = (0x90 ∷ []) ∷ [] ∷ (0x10 ∷ 0x90 ∷ []) ∷ []

getchar-read_example : seen (getchar rounds (0x11 ∷ []) idle) ≡ read rounds (0x11 ∷ []) (view idle)
getchar-read_example = getchar-read rounds (0x11 ∷ []) idle (omega arith) (omega arith) idle-IsValid
