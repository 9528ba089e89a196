-- ===== src/Terminal/Erase.antt =====
-- Backspace takes back the last character.
use orbit_os.Base.{ℕ, ◌-◌, ◌<◌, ◌≡◌, ◌≢◌, arith, ◌∙◌}
use orbit_os.Base.{◌==◌, if◌then◌else◌}
use orbit_os.Terminal.{Terminal, vga_entry, putchar, backspace, putentryat, update_cursor}
use orbit_os.Terminal.{step_back, put_here, serial_write_char}
use orbit_os.Terminal.Putchar.{IsValid, position, put, putchar-IsValid}
use orbit_os.Terminal.Text.{putchar_room}

-- Behind the first cell a backspace goes back by one cell and blanks it.
pub putchar-backspace :
    (t : Terminal)
    → IsValid t
    → (position (putchar 8 t) ≡ position t - 1)
      × ((putchar 8 t).color ≡ t.color)
      × ((i : ℕ)
          → (putchar 8 t).cells i
            ≡ (if position t - 1 == i then vga_entry b' ' t.color else t.cells i))
unfolding putchar backspace step_back put_here putentryat update_cursor serial_write_char
putchar-backspace t v = (ground arith, ground arith, λ i. ground arith)

-- A plain character and then a backspace: the cursor is back where it was, its cell is blank, and
-- the rest of the screen is as before, unless the character was in the last cell of the screen.
pub putchar-backspace_undo :
    (c : ℕ) (t : Terminal)
    → IsValid t
    → c ≢ 8
    → c ≢ 10
    → position t < 1999
    → (position (putchar 8 (putchar c t)) ≡ position t)
      × ((i : ℕ)
          → (putchar 8 (putchar c t)).cells i
            ≡ (if position t == i then vga_entry b' ' t.color else t.cells i))
unfolding put
putchar-backspace_undo c t v not_bs not_nl room =
    let (moves, colors, stores) = putchar_room c t v not_bs not_nl room in
    let (back, same, erases) = putchar-backspace (putchar c t) (putchar-IsValid c t v) in
    let here : position (putchar c t) - 1 ≡ position t = omega (arith, moves) in
    (back ∙ here, λ i. erases i ∙ rw (here, colors, stores i) (ground arith))
