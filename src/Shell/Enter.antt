-- ===== src/Shell/Enter.antt =====
-- Enter: the command sees the line that was typed, as a string.
use orbit_os.Base.{ℕ, zero, suc, ◌+◌, ◌-◌, ◌≤◌, ◌<◌, ◌≡◌, ◌≢◌, ◌⊎◌, ◌∙◌, refl, arith, inl, inr}
use orbit_os.Base.{◌==◌, ◌&&◌, leb, ltb, List, [], ◌∷◌, ◌++◌, length, false}
use orbit_os.Base.{Option, some, none, ◌>>=◌, Bool-cases}
use orbit_os.Memory.{Memory, load8, store8, load8-store8}
use orbit_os.Strings.{IsString}
use orbit_os.Terminal.{Terminal, putchar}
use orbit_os.Strings.Blocks.{load8-store8_ne}
use orbit_os.Strings.Compare.{NonZero, take-NonZero}
use orbit_os.Shell.{Places, Shell, edit, enter, run, prompt}
use orbit_os.Shell.Line.{
  bytes_at, edit_line, edit_lines, line, IsShort, line-edit, length-bytes_at, bytes_at-same,
  show_keys, terminal-edit,
}

-- Keys without Enter.
abbrev pub IsLine : List ℕ → Type 0
IsLine [] = Unit
IsLine (c ∷ keys) = (c ≢ 10) × IsLine keys

NonZero-snoc : (s : List ℕ) (c : ℕ) → NonZero s → c ≢ 0 → NonZero (s ++ c ∷ [])
NonZero-snoc [] c h k = (k, tt)
NonZero-snoc (d ∷ s) c h k = (h.0, NonZero-snoc s c h.1 k)

NonZero-edit_line : (c : ℕ) (s : List ℕ) → NonZero s → NonZero (edit_line c s)
unfolding edit_line
NonZero-edit_line c s h = elim (Bool-cases (c == 8)) [
  | inl back ↦ rw back (take-NonZero (length s - 1) s h)
  | inr not_back ↦ elim (Bool-cases (leb 32 c && leb c 126)) [
    | inr other ↦ rw (not_back, other) h
    | inl printable ↦ elim (Bool-cases (ltb (length s) 255)) [
      | inl room ↦ rw (not_back, printable, room) (NonZero-snoc s c h (ground arith))
      | inr full ↦ rw (not_back, printable, full) h
    ]
  ]
]

-- Bytes that are not zero, and a zero behind them, are a string.
pub IsString-bytes_at :
    (m : Memory) (a n : ℕ)
    → NonZero (bytes_at m a n)
    → load8 m (a + n) ≡ 0
    → IsString m a (bytes_at m a n)
unfolding bytes_at
IsString-bytes_at m a zero h e = let there : a + 0 ≡ a = omega arith in rw there at e
IsString-bytes_at m a (suc n) h e =
    let there : a + suc n ≡ a + 1 + n = omega arith in
    (refl, h.0, IsString-bytes_at m (a + 1) n h.1 (rw there at e))

bind-some : {A : Type 0} (r : Option A) → (r >>= some) ≡ r
bind-some none = refl
bind-some (some x) = refl

module _ {S : Type 0} (places : Places) (execute : Shell S → Option (Shell S)) where
  -- What `execute_command` is called on after these keys and Enter.
  abbrev pub IsCalledOn : List ℕ → Terminal → Shell S → Shell S → Type 0
  IsCalledOn typed screen s t =
      IsString t.mem places.cmd_buffer typed
      × (length typed < 256)
      × (t.rest ≡ s.rest)
      × (t.terminal ≡ putchar 10 screen)
      × ((a : ℕ)
          → (a < places.cmd_buffer) ⊎ (places.cmd_buffer + 256 ≤ a)
          → load8 t.mem a ≡ load8 s.mem a)

  -- A new prompt and an empty line.
  abbrev pub finish : Shell S → Option (Shell S)
  finish s = some (record s { cmd_length = 0; terminal = prompt s.terminal })

  rest-edit : (c : ℕ) (s : Shell S) → (edit places c s).rest ≡ s.rest
  unfolding edit
  rest-edit c s = ground arith

  mem-edit :
      (c : ℕ) (s : Shell S) (a : ℕ)
      → IsShort places s
      → (a < places.cmd_buffer) ⊎ (places.cmd_buffer + 256 ≤ a)
      → load8 (edit places c s).mem a ≡ load8 s.mem a
  unfolding edit
  mem-edit c s a short out =
      ground (arith, load8-store8_ne s.mem (places.cmd_buffer + s.cmd_length) c a)

  run_step :
      (c : ℕ) (keys : List ℕ) (s : Shell S)
      → c ≢ 10
      → run places execute (c ∷ keys) s ≡ run places execute keys (edit places c s)
  unfolding run
  run_step c keys s ne = let test : (c == 10) ≡ false = ground arith in rw test refl

  run_nil :
      (s : Shell S)
      → run places execute (10 ∷ []) s ≡ (
          execute (record s {
            terminal = putchar 10 s.terminal;
            mem = store8 s.mem (places.cmd_buffer + s.cmd_length) 0;
          })
          >>= finish)
  unfolding run enter
  run_nil s = bind-some (execute _ >>= finish)

  -- After keys without Enter, Enter runs the command once, on a state in which the edited line
  -- stands in the buffer as a string of at most 255 characters and neither memory outside the
  -- buffer nor the rest of the state has changed, after the keys have been shown and the line ended;
  -- what follows is a new prompt and an empty line.
  pub run-enter :
      (keys : List ℕ) (s : Shell S)
      → IsLine keys
      → IsShort places s
      → NonZero (line places s)
      → (t : Shell S) × IsCalledOn
          (edit_lines keys (line places s))
          (show_keys keys (line places s) s.terminal)
          s
          t
        × (run places execute (keys ++ 10 ∷ []) s ≡ (execute t >>= finish))
  unfolding edit_lines show_keys
  run-enter [] s plain short nz =
      let end = places.cmd_buffer + s.cmd_length in
      let m' = store8 s.mem end 0 in
      let kept : bytes_at m' places.cmd_buffer s.cmd_length ≡ line places s =
        bytes_at-same s.mem m' places.cmd_buffer s.cmd_length
          (λ b ge lt. load8-store8_ne s.mem end 0 b (omega arith)) in
      let zero_there : load8 m' end ≡ 0 = load8-store8 s.mem end 0 end ∙ ground arith in
      (
        record s { terminal = putchar 10 s.terminal; mem = m' },
        (
          rw (← kept) (IsString-bytes_at m' places.cmd_buffer s.cmd_length (rw kept nz) zero_there),
          omega (arith, length-bytes_at s.mem places.cmd_buffer s.cmd_length),
          refl,
          refl,
          λ a out. load8-store8_ne s.mem end 0 a (omega arith),
        ),
        run_nil s,
      )
  run-enter (c ∷ keys) s plain short nz =
      let s1 = edit places c s in
      let (edited, short1) = line-edit places c s short in
      let (t, (there, fits, same, screen, out), runs) =
        run-enter keys s1 plain.1 short1 (rw edited (NonZero-edit_line c (line places s) nz)) in
      (
        t,
        (
          rw (← edited) there,
          rw (← edited) fits,
          same ∙ rest-edit c s,
          rw (← edited, ← terminal-edit places c s) screen,
          λ a o. out a o ∙ mem-edit c s a short o,
        ),
        run_step c (keys ++ 10 ∷ []) s plain.0 ∙ runs,
      )
