-- ===== src/Terminal/Text.antt =====
-- Strings on the screen.
use native.Mathlib.Decide.{ℕ_discrete, dec_lt}
use orbit_os.Base.{ℕ, zero, suc, ◌+◌, ◌-◌, ◌≤◌, ◌<◌, ◌≡◌, ◌≢◌, refl, arith, ◌∙◌, ap, some}
use orbit_os.Base.{◌==◌, ltb, leb, ◌&&◌, if◌then◌else◌, List, [], ◌∷◌, length, get_or, false}
use orbit_os.Memory.{Memory}
use orbit_os.Strings.{IsString}
use orbit_os.Strings.Compare.{strlen_from_lem}
use orbit_os.Terminal.{Terminal, update, vga_entry, putchar, puts, write_from, write, writestring}
use orbit_os.Terminal.Putchar.{IsValid, position, put, putchar-print, putchar-IsValid}

-- Characters that `terminal_putchar` puts on the screen as they are.
abbrev pub IsPlain : List ℕ → Type 0
IsPlain [] = Unit
IsPlain (c ∷ s) = (c ≢ 8) × (c ≢ 10) × IsPlain s

pub puts-IsValid : (s : List ℕ) (t : Terminal) → IsValid t → IsValid (puts s t)
unfolding puts
puts-IsValid [] t v = v
puts-IsValid (c ∷ s) t v = puts-IsValid s (putchar c t) (putchar-IsValid c t v)

-- A character that leaves room on the screen.
pub putchar_room :
    (c : ℕ) (t : Terminal)
    → IsValid t
    → c ≢ 8
    → c ≢ 10
    → position t < 1999
    → (position (putchar c t) ≡ position t + 1)
      × ((putchar c t).color ≡ t.color)
      × ((i : ℕ) → (putchar c t).cells i ≡ put c t i)
putchar_room c t v not_bs not_nl room =
    let (moves, colors, stores) = putchar-print c t v not_bs not_nl in
    let last : (position t == 1999) ≡ false = ground arith in
    (moves ∙ rw last, colors, λ i. stores i ∙ rw last)

get_or_later : (s : List ℕ) (c n : ℕ) → n ≢ 0 → get_or (c ∷ s) n 0 ≡ get_or s (n - 1) 0
get_or_later s c zero ne = absurd (ne refl)
get_or_later s c (suc n) ne = let e : n ≡ suc n - 1 = omega arith in ap (λ k. get_or s k 0) e

-- A cell of a text of one more character.
text_cell :
    (s : List ℕ) (c p color i : ℕ) (f : ℕ → ℕ)
    → (if leb (p + 1) i && ltb i (p + 1 + length s)
        then vga_entry (get_or s (i - (p + 1)) 0) color
        else update f p (vga_entry c color) i)
      ≡ (if leb p i && ltb i (p + suc (length s))
          then vga_entry (get_or (c ∷ s) (i - p) 0) color
          else f i)
text_cell s c p color i f = elim (dec_lt p i) [
  | yes later ↦
      let shift : i - p - 1 ≡ i - (p + 1) = omega arith in
      rw (get_or_later s c (i - p) (omega arith), shift) (ground arith)
  | no not_later ↦ elim (ℕ_discrete i p) [
    | yes e ↦ let first : i - p ≡ 0 = omega arith in rw first (ground arith)
    | no ne ↦ ground arith
  ]
]

-- Plain text that fits before the last cell stands on the screen from the cursor on, in the
-- current colour; no other cell changes, and the cursor goes behind the text.
pub puts-cells :
    (s : List ℕ) (t : Terminal)
    → IsValid t
    → IsPlain s
    → position t + length s ≤ 1999
    → (position (puts s t) ≡ position t + length s)
      × ((puts s t).color ≡ t.color)
      × ((i : ℕ)
          → (puts s t).cells i ≡ (
              if leb (position t) i && ltb i (position t + length s)
              then vga_entry (get_or s (i - position t) 0) t.color
              else t.cells i))
unfolding puts put
puts-cells [] t v plain fits = (omega arith, refl, λ i. ground arith)
puts-cells (c ∷ s) t v (not_bs, not_nl, plain) fits =
    let (moves, colors, stores) = putchar_room c t v not_bs not_nl (omega arith) in
    let (moves', colors', stores') =
      puts-cells s (putchar c t) (putchar-IsValid c t v) plain (omega arith) in
    (
      omega (arith, moves, moves'),
      colors' ∙ colors,
      λ i. stores' i ∙ rw (moves, colors, stores i) (text_cell s c (position t) t.color i t.cells),
    )

-- `terminal_writestring` of a string in memory writes its characters, one after the other.
write_from-puts :
    (m : Memory) (text i : ℕ) (s : List ℕ) (t : Terminal)
    → IsString m (text + i) s
    → write_from m text (length s) i t ≡ puts s t
unfolding write_from puts
write_from-puts m text i [] t h = refl
write_from-puts m text i (c ∷ s) t h =
    let next : text + i + 1 ≡ text + (i + 1) = omega arith in
    ap (λ b. write_from m text (length s) (i + 1) (putchar b t)) h.0
    ∙ write_from-puts m text (i + 1) s (putchar c t) (rw (← next) h.2)

-- `terminal_writestring` of a string in memory ends with fuel above its length, and it prints the
-- string's characters one by one, in order.
pub writestring-puts :
    (m : Memory) (text fuel : ℕ) (s : List ℕ) (t : Terminal)
    → IsString m text s
    → length s < fuel
    → writestring fuel m text t ≡ some (puts s t)
unfolding writestring write
writestring-puts m text fuel s t h long =
    let start : text + 0 ≡ text = omega arith in
    rw (strlen_from_lem m text s 0 fuel (rw start h) long) (
      let size : 0 + length s ≡ length s = omega arith in
      rw size (ap some (write_from-puts m text 0 s t (rw start h))))
