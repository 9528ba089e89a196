-- ===== src/Terminal.antt =====
-- drivers/terminal.c and drivers/vga.h: the 80 by 25 text screen. The static variables are the
-- fields of a record: `cells` is the array of 16-bit cells at `terminal_buffer`, and `ports` logs
-- the bytes that `outb` sends, the latest first (the cursor registers and the serial line).
pub mod Scroll
pub mod Putchar
pub mod Text
pub mod Ports
pub mod Erase
use orbit_os.Base.{ℕ, zero, suc, ◌+◌, ◌-◌, ◌*◌, ◌/◌, ◌%◌, ◌^◌, Bool, Option, some, none}
use orbit_os.Base.{
  List, [], ◌∷◌, ◌==◌, ltb, if◌then◌else◌, bit_and, bit_or, u8, u16, ◌<<◌, ◌>>◌, ◌>>=◌,
}
use orbit_os.Memory.{Memory, load8}
use orbit_os.Strings.{strlen_from}

pub record Terminal : Type 0 where
  pub row : ℕ
  pub column : ℕ
  pub color : ℕ
  pub cells : ℕ → ℕ
  pub ports : List (ℕ × ℕ)

abbrev pub vga_width : ℕ
vga_width = 80

abbrev pub vga_height : ℕ
vga_height = 25

-- `enum vga_color`, the colours that the kernel uses.
abbrev pub color_black : ℕ
color_black = 0

abbrev pub color_light_grey : ℕ
color_light_grey = 7

unfoldable pub vga_entry_color : ℕ → ℕ → ℕ
vga_entry_color fg bg = u8 (bit_or fg (bg << 4))

unfoldable pub vga_entry : ℕ → ℕ → ℕ
vga_entry uc color = bit_or (u8 uc) (color << 8)

abbrev pub update : (ℕ → ℕ) → ℕ → ℕ → ℕ → ℕ
update f i v j = if i == j then v else f j

abbrev pub outb : ℕ → ℕ → Terminal → Terminal
outb port val t = record t { ports = (port, u8 val) ∷ t.ports }

unfoldable pub update_cursor : ℕ → ℕ → Terminal → Terminal
update_cursor x y t =
    let pos = u16 (y * vga_width + x) in
    outb 0x3D5 (bit_and (pos >> 8) 0xFF)
      (outb 0x3D4 0x0E (outb 0x3D5 (bit_and pos 0xFF) (outb 0x3D4 0x0F t)))

-- The loop over `x` with `left` rounds to go that stores one entry.
unfoldable pub fill_row : ℕ → ℕ → ℕ → ℕ → (ℕ → ℕ) → ℕ → ℕ
fill_row entry zero x y cells = cells
fill_row entry (suc left) x y cells =
    fill_row entry left (x + 1) y (update cells (y * vga_width + x) entry)

unfoldable pub fill_rows : ℕ → ℕ → ℕ → (ℕ → ℕ) → ℕ → ℕ
fill_rows entry zero y cells = cells
fill_rows entry (suc left) y cells =
    fill_rows entry left (y + 1) (fill_row entry vga_width 0 y cells)

unfoldable pub clear : Terminal → Terminal
clear t = record t { cells = fill_rows (vga_entry b' ' t.color) vga_height 0 t.cells }

-- Nothing of the earlier state but the screen's memory and the log survives.
unfoldable pub initialize : Terminal → Terminal
initialize t =
    update_cursor 0 0 (
      clear
        (record t { row = 0; column = 0; color = vga_entry_color color_light_grey color_black }))

unfoldable pub setcolor : ℕ → Terminal → Terminal
setcolor color t = record t { color = color }

unfoldable pub putentryat : ℕ → ℕ → ℕ → ℕ → Terminal → Terminal
putentryat c color x y t = record t {
  cells = update t.cells (y * vga_width + x) (vga_entry c color);
}

-- The two loops of `terminal_scroll` that move the rows up, in place.
unfoldable pub copy_row : ℕ → ℕ → ℕ → (ℕ → ℕ) → ℕ → ℕ
copy_row zero x y cells = cells
copy_row (suc left) x y cells =
    copy_row left (x + 1) y (update cells (y * vga_width + x) (cells ((y + 1) * vga_width + x)))

unfoldable pub copy_rows : ℕ → ℕ → (ℕ → ℕ) → ℕ → ℕ
copy_rows zero y cells = cells
copy_rows (suc left) y cells = copy_rows left (y + 1) (copy_row vga_width 0 y cells)

unfoldable pub scroll : Terminal → Terminal
scroll t = record t {
  cells =
      fill_row (vga_entry b' ' t.color) vga_width 0 (vga_height - 1)
        (copy_rows (vga_height - 1) 0 t.cells);
}

-- `if (++terminal_row == VGA_HEIGHT) { terminal_scroll(); terminal_row = VGA_HEIGHT - 1; }`
unfoldable pub next_row : Terminal → Terminal
next_row t =
    let down = record t { row = t.row + 1 } in
    if t.row + 1 == vga_height then record (scroll down) { row = vga_height - 1 } else down

-- `terminal_update_cursor(terminal_column, terminal_row)`, which ends every branch.
abbrev pub show_cursor : Terminal → Terminal
show_cursor t = update_cursor t.column t.row t

-- One cell back, to the end of the row above from the start of a row.
unfoldable pub step_back : Terminal → Terminal
step_back t =
    if ltb 0 t.column
    then record t { column = t.column - 1 }
    else if ltb 0 t.row
    then record t { row = t.row - 1; column = vga_width - 1 }
    else t

unfoldable pub put_here : ℕ → Terminal → Terminal
put_here c t = putentryat c t.color t.column t.row t

-- `if (++terminal_column == VGA_WIDTH) …`
unfoldable pub step_on : Terminal → Terminal
step_on t =
    if t.column + 1 == vga_width
    then next_row (record t { column = 0 })
    else record t { column = t.column + 1 }

-- The branch of `terminal_putchar` for '\b'.
unfoldable pub backspace : Terminal → Terminal
backspace t = show_cursor (put_here b' ' (step_back t))

-- The branch for '\n'.
unfoldable pub newline : Terminal → Terminal
newline t = show_cursor (next_row (record t { column = 0 }))

-- Every other character.
unfoldable pub print : ℕ → Terminal → Terminal
print c t = show_cursor (step_on (put_here c t))

unfoldable pub serial_write_char : ℕ → Terminal → Terminal
serial_write_char c t = outb 0x3F8 c t

unfoldable pub putchar : ℕ → Terminal → Terminal
putchar c t =
    let sent = serial_write_char c t in
    if c == 8 then backspace sent else if c == 10 then newline sent else print c sent

-- `terminal_write`, with `left` characters to go from index `i`.
unfoldable pub write_from : Memory → ℕ → ℕ → ℕ → Terminal → Terminal
write_from m text zero i t = t
write_from m text (suc left) i t = write_from m text left (i + 1) (putchar (load8 m (text + i)) t)

unfoldable pub write : Memory → ℕ → ℕ → Terminal → Terminal
write m text size t = write_from m text size 0 t

-- `terminal_writestring`: its first loop is the one of `strlen`.
unfoldable pub writestring : ℕ → Memory → ℕ → Terminal → Option Terminal
writestring fuel m text t = do size ← strlen_from fuel m text 0; some (write m text size t)

-- The characters of a string, one after the other.
unfoldable pub puts : List ℕ → Terminal → Terminal
puts [] t = t
puts (c ∷ s) t = puts s (putchar c t)
