-- ===== src/Terminal/Scroll.antt =====
-- The loops over the screen's cells.
use orbit_os.Base.{ℕ, zero, suc, ◌+◌, ◌-◌, ◌*◌, ◌≡◌, arith, ap}
use orbit_os.Base.{ltb, leb, ◌&&◌, if◌then◌else◌}
use orbit_os.Terminal.{
  Terminal, vga_width, vga_height, update, fill_row, fill_rows, copy_row, copy_rows, scroll, clear,
  vga_entry,
}

pub fill_row-at :
    (entry left x y : ℕ) (cells : ℕ → ℕ) (i : ℕ)
    → fill_row entry left x y cells i
      ≡ (if leb (y * vga_width + x) i && ltb i (y * vga_width + x + left) then entry else cells i)
unfolding fill_row
fill_row-at entry zero x y cells i = ground arith
fill_row-at entry (suc left) x y cells i =
    ground (arith, fill_row-at entry left (x + 1) y (update cells (y * vga_width + x) entry) i)

pub fill_rows-at :
    (entry left y : ℕ) (cells : ℕ → ℕ) (i : ℕ)
    → fill_rows entry left y cells i
      ≡ (if leb (y * vga_width) i && ltb i ((y + left) * vga_width) then entry else cells i)
unfolding fill_rows
fill_rows-at entry zero y cells i = ground arith
fill_rows-at entry (suc left) y cells i = ground (
  arith,
  fill_rows-at entry left (y + 1) (fill_row entry vga_width 0 y cells) i,
  fill_row-at entry vga_width 0 y cells i,
)

pub copy_row-at :
    (left x y : ℕ) (cells : ℕ → ℕ) (i : ℕ)
    → copy_row left x y cells i ≡ (
        if leb (y * vga_width + x) i && ltb i (y * vga_width + x + left)
        then cells (i + vga_width)
        else cells i)
unfolding copy_row
copy_row-at zero x y cells i = ground arith
copy_row-at (suc left) x y cells i =
    let below : (y + 1) * vga_width + x ≡ y * vga_width + x + vga_width = omega arith in
    let moved = update cells (y * vga_width + x) (cells ((y + 1) * vga_width + x)) in
    ground (arith, copy_row-at left (x + 1) y moved i, ap cells below)

pub copy_rows-at :
    (left y : ℕ) (cells : ℕ → ℕ) (i : ℕ)
    → copy_rows left y cells i ≡ (
        if leb (y * vga_width) i && ltb i ((y + left) * vga_width)
        then cells (i + vga_width)
        else cells i)
unfolding copy_rows
copy_rows-at zero y cells i = ground arith
copy_rows-at (suc left) y cells i = ground (
  arith,
  copy_rows-at left (y + 1) (copy_row vga_width 0 y cells) i,
  copy_row-at vga_width 0 y cells i,
  copy_row-at vga_width 0 y cells (i + vga_width),
)

-- `terminal_scroll` moves each row up by one, blanks the last, and writes no other cell.
pub cells-scroll :
    (t : Terminal) (i : ℕ)
    → (scroll t).cells i ≡ (
        if ltb i 1920
        then t.cells (i + 80)
        else if ltb i 2000
        then vga_entry b' ' t.color
        else t.cells i)
unfolding scroll
cells-scroll t i = ground (
  arith,
  fill_row-at (vga_entry b' ' t.color) vga_width 0 (vga_height - 1)
      (copy_rows (vga_height - 1) 0 t.cells) i,
  copy_rows-at (vga_height - 1) 0 t.cells i,
)

-- `terminal_clear` blanks the 2000 cells of the screen and writes no other.
pub cells-clear :
    (t : Terminal) (i : ℕ)
    → (clear t).cells i ≡ (if ltb i 2000 then vga_entry b' ' t.color else t.cells i)
unfolding clear
cells-clear t i = ground (arith, fill_rows-at (vga_entry b' ' t.color) vga_height 0 t.cells i)
