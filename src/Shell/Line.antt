-- ===== src/Shell/Line.antt =====
-- The line editor: what the buffer holds is the line that was typed.
use orbit_os.Base.{ℕ, zero, suc, ◌+◌, ◌-◌, ◌≤◌, ◌<◌, ◌≡◌, ◌≢◌, ◌∙◌, refl, arith, ap, inl, inr}
use orbit_os.Base.{◌==◌, ◌&&◌, leb, ltb, if◌then◌else◌, List, [], ◌∷◌, ◌++◌, length, take}
use orbit_os.Base.{Bool-cases, sym}
use orbit_os.Memory.{Memory, load8, store8, load8-store8}
use orbit_os.Strings.Blocks.{load8-store8_ne}
use orbit_os.Terminal.{Terminal, putchar}
use orbit_os.Shell.{Places, Shell, edit, cmd_buffer_size}

-- The `n` bytes from `a` on.
unfoldable pub bytes_at : Memory → ℕ → ℕ → List ℕ
bytes_at m a zero = []
bytes_at m a (suc n) = load8 m a ∷ bytes_at m (a + 1) n

-- The specification: a line, a key, and the line afterwards. Backspace takes the last character, a
-- printable character comes behind the others while there is room, other keys do nothing.
unfoldable pub edit_line : ℕ → List ℕ → List ℕ
edit_line c line =
    if c == 8
    then take (length line - 1) line
    else if leb 32 c && leb c 126
    then (if ltb (length line) 255 then line ++ c ∷ [] else line)
    else line

-- What a key shows on the screen, on a line.
unfoldable pub show_key : ℕ → List ℕ → Terminal → Terminal
show_key c line t =
    if c == 8
    then (if ltb 0 (length line) then putchar 8 t else t)
    else if leb 32 c && leb c 126
    then (if ltb (length line) 255 then putchar c t else t)
    else t

unfoldable pub show_keys : List ℕ → List ℕ → Terminal → Terminal
unfolding edit_line show_key
show_keys [] line t = t
show_keys (c ∷ keys) line t = show_keys keys (edit_line c line) (show_key c line t)

unfoldable pub edit_lines : List ℕ → List ℕ → List ℕ
edit_lines [] line = line
edit_lines (c ∷ keys) line = edit_lines keys (edit_line c line)

pub length-bytes_at : (m : Memory) (a n : ℕ) → length (bytes_at m a n) ≡ n
unfolding bytes_at
length-bytes_at m a zero = refl
length-bytes_at m a (suc n) = ap suc (length-bytes_at m (a + 1) n)

pub bytes_at-same :
    (m m' : Memory) (a n : ℕ)
    → ((b : ℕ) → a ≤ b → b < a + n → load8 m' b ≡ load8 m b)
    → bytes_at m' a n ≡ bytes_at m a n
unfolding bytes_at
bytes_at-same m m' a zero same = refl
bytes_at-same m m' a (suc n) same =
    rw
      (
        same a (omega arith) (omega arith),
        bytes_at-same m m' (a + 1) n (λ b ge lt. same b (omega arith) (omega arith)),
      )
      refl

bytes_at-snoc :
    (m : Memory) (a n : ℕ) → bytes_at m a (suc n) ≡ bytes_at m a n ++ load8 m (a + n) ∷ []
unfolding bytes_at
bytes_at-snoc m a zero = let e : a + 0 ≡ a = omega arith in rw e refl
bytes_at-snoc m a (suc n) =
    let e : a + suc n ≡ a + 1 + n = omega arith in
    rw e (ap (load8 m a ∷◌) (bytes_at-snoc m (a + 1) n))

take-bytes_at : (m : Memory) (a n : ℕ) → take n (bytes_at m a (suc n)) ≡ bytes_at m a n
unfolding bytes_at
take-bytes_at m a zero = refl
take-bytes_at m a (suc n) = ap (load8 m a ∷◌) (take-bytes_at m (a + 1) n)

module _ {S : Type 0} (places : Places) where
  -- The line in the buffer.
  abbrev pub line : Shell S → List ℕ
  line s = bytes_at s.mem places.cmd_buffer s.cmd_length

  -- There is room for the end of the line.
  abbrev pub IsShort : Shell S → Type 0
  IsShort s = s.cmd_length < cmd_buffer_size

  appended :
      (c : ℕ) (s : Shell S)
      → c < 256
      → bytes_at
          (store8 s.mem (places.cmd_buffer + s.cmd_length) c)
          places.cmd_buffer
          (suc s.cmd_length)
        ≡ line s ++ c ∷ []
  appended c s small =
      let m' = store8 s.mem (places.cmd_buffer + s.cmd_length) c in
      let before : bytes_at m' places.cmd_buffer s.cmd_length ≡ line s =
        bytes_at-same s.mem m' places.cmd_buffer s.cmd_length
          (λ b ge lt. load8-store8_ne s.mem (places.cmd_buffer + s.cmd_length) c b (omega arith)) in
      let last : load8 m' (places.cmd_buffer + s.cmd_length) ≡ c =
        load8-store8 s.mem (places.cmd_buffer + s.cmd_length) c (places.cmd_buffer + s.cmd_length)
        ∙ ground arith in
      bytes_at-snoc m' places.cmd_buffer s.cmd_length ∙ rw (before, last) refl

  shortened :
      (s : Shell S)
      → s.cmd_length ≢ 0
      → take (length (line s) - 1) (line s) ≡ bytes_at s.mem places.cmd_buffer (s.cmd_length - 1)
  shortened s ne =
      let n = s.cmd_length - 1 in
      let e : s.cmd_length ≡ suc n = omega arith in
      let size : length (line s) - 1 ≡ n =
        omega (arith, length-bytes_at s.mem places.cmd_buffer s.cmd_length) in
      rw size (
        ap (λ k. take n (bytes_at s.mem places.cmd_buffer k)) e
        ∙ take-bytes_at s.mem places.cmd_buffer n)

  -- A key other than Enter edits the line in the buffer as the specification says, and keeps it
  -- short enough for its end.
  pub line-edit :
      (c : ℕ) (s : Shell S)
      → IsShort s
      → (line (edit places c s) ≡ edit_line c (line s)) × IsShort (edit places c s)
  unfolding edit edit_line bytes_at
  line-edit c s short = elim (Bool-cases (c == 8)) [
    | inl back ↦ elim (Bool-cases (ltb 0 s.cmd_length)) [
      | inl some_left ↦ rw (back, some_left) (sym (shortened s (ground arith)), ground arith)
      | inr at_start ↦
          let nil : s.cmd_length ≡ 0 = ground arith in
          rw (back, at_start)
            (
              ap (λ k. bytes_at s.mem places.cmd_buffer k) nil
                  ∙ sym (
                      ap
                        (λ k.
                          take (length (bytes_at s.mem places.cmd_buffer k) - 1)
                            (bytes_at s.mem places.cmd_buffer k))
                        nil),
              short,
            )
    ]
    | inr not_back ↦ elim (Bool-cases (leb 32 c && leb c 126)) [
      | inr other ↦ rw (not_back, other) (refl, short)
      | inl printable ↦
          let small : c < 256 = ground arith in
          let size = length-bytes_at s.mem places.cmd_buffer s.cmd_length in
          elim (Bool-cases (ltb s.cmd_length 255)) [
            | inl room ↦
                let n1 : s.cmd_length + 1 ≡ suc s.cmd_length = omega arith in
                rw (not_back, printable, room, size, room, n1) (appended c s small, ground arith)
            | inr full ↦ rw (not_back, printable, full, size, full) (refl, short)
          ]
    ]
  ]

  pub terminal-edit :
      (c : ℕ) (s : Shell S) → (edit places c s).terminal ≡ show_key c (line s) s.terminal
  unfolding edit show_key
  terminal-edit c s = rw (length-bytes_at s.mem places.cmd_buffer s.cmd_length) (ground arith)
