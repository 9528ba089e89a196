-- ===== src/Tests/Screen.antt =====
-- The terminal on short texts.
use orbit_os.Base.{ℕ, ◌+◌, ◌-◌, ◌≡◌, refl, arith, List, [], ◌∷◌, get_or, length}
use orbit_os.Base.{◌==◌, leb, ltb, ◌&&◌, if◌then◌else◌}
use orbit_os.Memory.{Memory, load8, store8}
use orbit_os.Strings.{IsString}
use orbit_os.Terminal.{Terminal, putchar, puts, vga_entry}
use orbit_os.Terminal.Putchar.{IsValid, position}
use orbit_os.Terminal.Text.{puts-cells}
use orbit_os.Terminal.Erase.{putchar-backspace_undo}

-- The cursor two cells before the end of row 3.
abbrev screen : Terminal
screen = record { row = 3; column = 78; color = 7; cells = λ i. 0; ports = [] }

screen-IsValid : IsValid screen
screen-IsValid = omega arith

-- The cursor on the last cell.
abbrev full : Terminal
full = record screen { row = 24; column = 79 }

full-IsValid : IsValid full
full-IsValid = omega arith

abbrev orbit : List ℕ
orbit = b'O' ∷ b'r' ∷ b'b' ∷ []

puts-cells_example :
    (position (puts orbit screen) ≡ position screen + length orbit)
    × ((puts orbit screen).color ≡ 7)
    × ((i : ℕ)
        → (puts orbit screen).cells i ≡ (
            if leb (position screen) i && ltb i (position screen + length orbit)
            then vga_entry (get_or orbit (i - position screen) 0) 7
            else screen.cells i))
puts-cells_example = puts-cells orbit screen screen-IsValid (omega arith) (omega arith)

putchar-backspace_undo_example :
    (position (putchar 8 (putchar b'O' screen)) ≡ position screen)
    × ((i : ℕ)
        → (putchar 8 (putchar b'O' screen)).cells i
          ≡ (if position screen == i then vga_entry b' ' 7 else screen.cells i))
putchar-backspace_undo_example =
    putchar-backspace_undo b'O' screen screen-IsValid (omega arith) (omega arith) (omega arith)

-- "Orb" at 100.
abbrev memory : Memory
memory = store8 (store8 (store8 (λ a. 0) 100 b'O') 101 b'r') 102 b'b'

orbit_there : IsString memory 100 orbit
unfolding load8 store8
orbit_there = (refl, omega arith, (refl, omega arith, (refl, omega arith, refl)))
