-- ===== src/Terminal/Ports.antt =====
-- What the terminal sends to the hardware, and the backspace.
use orbit_os.Base.{ℕ, ◌+◌, ◌*◌, ◌<◌, ◌≡◌, refl, arith, ◌∙◌, ap}
use orbit_os.Base.{◌==◌, if◌then◌else◌, List, [], ◌∷◌, ◌++◌, map, u8, u16, ◌>>◌}
use orbit_os.Bits.{bit_and-mask}
use mathlib.Core.List.{append_assoc, append-nil}
use orbit_os.Terminal.{Terminal, putchar, puts, scroll, vga_width}
use orbit_os.Terminal.{
  backspace, newline, next_row, putentryat, update_cursor, serial_write_char, print,
}
use orbit_os.Terminal.{show_cursor, step_back, step_on, put_here}
use orbit_os.Base.{Bool-cases, inl, inr, sym}
use mathlib.Core.Path.{subst}
use orbit_os.Terminal.Putchar.{IsValid, position, putchar-IsValid}

-- The bytes on the serial line, in the order of sending.
unfoldable pub serial : List (ℕ × ℕ) → List ℕ
serial [] = []
serial ((port, val) ∷ earlier) =
    if port == 0x3F8 then serial earlier ++ val ∷ [] else serial earlier

-- The registers of the display controller: the register that is selected, and the two bytes of the
-- cursor's position.
pub record Cursor : Type 0 where
  pub index : ℕ
  pub high : ℕ
  pub low : ℕ

unfoldable pub cursor : List (ℕ × ℕ) → Cursor
cursor [] = record { index = 0; high = 0; low = 0 }
cursor ((port, val) ∷ earlier) =
    let c = cursor earlier in
    if port == 0x3D4
    then record c { index = val }
    else if port == 0x3D5
    then (if c.index == 0x0E
        then record c { high = val }
        else if c.index == 0x0F
        then record c { low = val }
        else c)
    else c

abbrev pub cursor_position : Cursor → ℕ
cursor_position c = c.high * 256 + c.low

cursor-update_cursor :
    (x y : ℕ) (t : Terminal)
    → y < 25
    → x < 80
    → cursor_position (cursor (update_cursor x y t).ports) ≡ y * 80 + x
unfolding cursor update_cursor
cursor-update_cursor x y t hy hx =
    omega (
      arith,
      bit_and-mask 8 (u16 (y * vga_width + x)),
      bit_and-mask 8 (u16 (y * vga_width + x) >> 8),
    )

serial-update_cursor :
    (x y : ℕ) (t : Terminal) → serial (update_cursor x y t).ports ≡ serial t.ports
unfolding serial update_cursor
serial-update_cursor x y t = refl

-- Every branch of `terminal_putchar` shows the cursor last, and sends nothing else to a port than
-- the character at first.
ports-next_row : (t : Terminal) → (next_row t).ports ≡ t.ports
unfolding next_row scroll
ports-next_row t = ground arith

ports-step_back : (t : Terminal) → (put_here b' ' (step_back t)).ports ≡ t.ports
unfolding step_back put_here putentryat
ports-step_back t = ground arith

ports-step_on : (c : ℕ) (t : Terminal) → (step_on (put_here c t)).ports ≡ t.ports
unfolding step_on put_here putentryat next_row scroll
ports-step_on c t = ground arith

putchar-show_cursor :
    (c : ℕ) (t : Terminal)
    → (u : Terminal) × (putchar c t ≡ show_cursor u) × (u.ports ≡ (0x3F8, u8 c) ∷ t.ports)
unfolding putchar backspace newline print serial_write_char
putchar-show_cursor c t =
    let sent = serial_write_char c t in
    elim (Bool-cases (c == 8)) [
      | inl e ↦ (put_here b' ' (step_back sent), rw e, ports-step_back sent)
      | inr e ↦ elim (Bool-cases (c == 10)) [
        | inl e' ↦ (
          next_row (record sent { column = 0 }),
          rw (e, e'),
          ports-next_row (record sent { column = 0 }),
        )
        | inr e' ↦ (step_on (put_here c sent), rw (e, e'), ports-step_on c sent)
      ]
    ]

-- `terminal_putchar` sends its character to the serial line once, whatever it does to the screen.
pub serial-putchar :
    (c : ℕ) (t : Terminal) → serial (putchar c t).ports ≡ serial t.ports ++ u8 c ∷ []
serial-putchar c t =
    let (u, shape, ports) = putchar-show_cursor c t in
    ap (λ (s : Terminal). serial s.ports) shape
    ∙ serial-update_cursor u.column u.row u
    ∙ ap serial ports
    ∙ (unfold serial in refl)

-- A text goes to the serial line whole and in order.
pub serial-puts :
    (s : List ℕ) (t : Terminal) → serial (puts s t).ports ≡ serial t.ports ++ map (λ c. u8 c) s
unfolding puts
serial-puts [] t = simp append-nil
serial-puts (c ∷ s) t = simp (serial-puts s (putchar c t), serial-putchar c t, append_assoc)

show_cursor-IsValid : (u : Terminal) → IsValid (show_cursor u) → IsValid u
unfolding update_cursor
show_cursor-IsValid u v = omega arith

position-show_cursor : (u : Terminal) → position (show_cursor u) ≡ position u
unfolding update_cursor
position-show_cursor u = refl

-- From a valid state the hardware cursor shows, after a character, where the next one goes.
pub cursor-putchar :
    (c : ℕ) (t : Terminal)
    → IsValid t
    → cursor_position (cursor (putchar c t).ports) ≡ position (putchar c t)
cursor-putchar c t v =
    let (u, shape, ports) = putchar-show_cursor c t in
    let v' = show_cursor-IsValid u (subst IsValid shape (putchar-IsValid c t v)) in
    ap (λ (s : Terminal). cursor_position (cursor s.ports)) shape
    ∙ cursor-update_cursor u.column u.row u v'.row_in v'.column_in
    ∙ sym (ap position shape ∙ position-show_cursor u)
