-- ===== src/Terminal/Putchar.antt =====
-- One character on the screen.
use native.Mathlib.Decide.{ℕ_discrete}
use orbit_os.Base.{ℕ, ◌+◌, ◌*◌, ◌<◌, ◌≡◌, ◌≢◌, arith}
use orbit_os.Base.{◌==◌, ltb, if◌then◌else◌, true, false}
use orbit_os.Terminal.{
  Terminal, vga_width, vga_height, update, scroll, vga_entry, initialize, clear,
}
use orbit_os.Terminal.{
  putchar, print, backspace, newline, next_row, putentryat, update_cursor, serial_write_char,
  step_back, step_on, put_here,
}
use orbit_os.Terminal.Scroll.{cells-scroll}

-- The cursor is on the screen.
pub record IsValid (t : Terminal) : Type 0 where
  pub row_in : t.row < vga_height
  pub column_in : t.column < vga_width

abbrev pub position : Terminal → ℕ
position t = t.row * vga_width + t.column

-- `terminal_initialize` puts the cursor on the screen.
pub initialize-IsValid : (t : Terminal) → IsValid (initialize t)
unfolding initialize update_cursor clear
initialize-IsValid t = omega arith

-- Every character leaves the cursor on the screen.
pub putchar-IsValid : (c : ℕ) (t : Terminal) → IsValid t → IsValid (putchar c t)
unfolding putchar backspace newline print step_back step_on put_here next_row putentryat
    update_cursor serial_write_char scroll
putchar-IsValid c t v = ground arith

-- The cell that a character goes to, and the screen moved up by a row.
unfoldable pub put : ℕ → Terminal → ℕ → ℕ
put c t = update t.cells (position t) (vga_entry c t.color)

unfoldable pub moved_up : ℕ → (ℕ → ℕ) → ℕ → ℕ
moved_up color cells i =
    if ltb i 1920 then cells (i + 80) else if ltb i 2000 then vga_entry b' ' color else cells i

-- `next_row` goes one row down, or moves the screen up.
module _ (t : Terminal) (inside : t.row < vga_height) where
  row-next_row : (next_row t).row ≡ (if t.row == 24 then 24 else t.row + 1)
  unfolding next_row
  row-next_row = ground arith

  column-next_row : (next_row t).column ≡ t.column
  unfolding next_row scroll
  column-next_row = ground arith

  color-next_row : (next_row t).color ≡ t.color
  unfolding next_row scroll
  color-next_row = ground arith

  cells-next_row :
      (i : ℕ)
      → (next_row t).cells i ≡ (if t.row == 24 then moved_up t.color t.cells i else t.cells i)
  unfolding next_row moved_up
  cells-next_row i = ground (arith, cells-scroll (record t { row = t.row + 1 }) i)

putchar_other :
    (c : ℕ) (t : Terminal) → c ≢ 8 → c ≢ 10 → putchar c t ≡ print c (serial_write_char c t)
unfolding putchar
putchar_other c t not_bs not_nl = ground arith

-- `print` where the row is not full, and where it is.
print_inside :
    (c : ℕ) (t : Terminal)
    → t.column + 1 ≢ 80
    → (position (print c t) ≡ position t + 1)
      × ((print c t).color ≡ t.color)
      × ((i : ℕ) → (print c t).cells i ≡ put c t i)
unfolding print step_on put_here putentryat update_cursor put
print_inside c t ne =
    let test : (t.column + 1 == vga_width) ≡ false = ground arith in
    (rw test (omega arith), rw test, λ i. rw test)

print_at_end :
    (c : ℕ) (t : Terminal)
    → IsValid t
    → t.column + 1 ≡ 80
    → (position (print c t) ≡ (if t.row == 24 then 1920 else position t + 1))
      × ((print c t).color ≡ t.color)
      × ((i : ℕ)
          → (print c t).cells i ≡ (if t.row == 24 then moved_up t.color (put c t) i else put c t i))
unfolding print step_on put_here putentryat update_cursor put
print_at_end c t v e =
    let test : (t.column + 1 == vga_width) ≡ true = ground arith in
    let full = record t { column = 0; cells = update t.cells (position t) (vga_entry c t.color) } in
    (
      rw test (ground (arith, row-next_row full v.row_in, column-next_row full v.row_in)),
      rw test (color-next_row full v.row_in),
      λ i. rw test (cells-next_row full v.row_in i),
    )

-- A character other than backspace and newline goes to the cell under the cursor, and the cursor
-- goes on to the next cell. Behind the last cell the screen moves up by a row and the cursor goes
-- to the start of the last row.
pub putchar-print :
    (c : ℕ) (t : Terminal)
    → IsValid t
    → c ≢ 8
    → c ≢ 10
    → (position (putchar c t) ≡ (if position t == 1999 then 1920 else position t + 1))
      × ((putchar c t).color ≡ t.color)
      × ((i : ℕ)
          → (putchar c t).cells i
            ≡ (if position t == 1999 then moved_up t.color (put c t) i else put c t i))
unfolding serial_write_char put
putchar-print c t v not_bs not_nl =
    let sent = serial_write_char c t in
    let v' : IsValid sent = omega arith in
    elim (ℕ_discrete (t.column + 1) 80) [
      | yes e ↦
          let (moves, colors, stores) = print_at_end c sent v' e in
          let last : (t.row == 24) ≡ (position t == 1999) = ground arith in
          rw (putchar_other c t not_bs not_nl, ← last) (moves, colors, stores)
      | no ne ↦
          let (moves, colors, stores) = print_inside c sent ne in
          let last : (position t == 1999) ≡ false = ground arith in
          rw (putchar_other c t not_bs not_nl, last) (moves, colors, stores)
    ]
