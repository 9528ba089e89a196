-- ===== src/Shell/Session.antt =====
-- A whole session: a line with "echo" is typed, and the shell prints the rest of it.
use orbit_os.Base.{append-nil, append_assoc, length-append}
use orbit_os.Base.{ℕ, ◌+◌, ◌≤◌, ◌<◌, ◌≡◌, ◌∙◌, refl, arith, ap}
use orbit_os.Base.{◌==◌, ◌&&◌, leb, ltb, List, [], ◌∷◌, ◌++◌, length, true, false}
use orbit_os.Base.{some, codes, sym}
use orbit_os.Memory.{Memory}
use orbit_os.Strings.{IsString}
use orbit_os.Terminal.{Terminal, putchar, puts}
use orbit_os.Terminal.Text.{writestring-puts}
use orbit_os.Shell.{Shell, Command, prompt, print_text, run}
use orbit_os.Shell.Line.{bytes_at, line, edit_line, edit_lines, show_key, show_keys}
use orbit_os.Shell.Enter.{IsLine, run-enter}
use orbit_os.Shell.Choice.{AreStored, command_of, same, choose-command_of}
use orbit_os.Shell.Piece.{IsSameOutside}
use orbit_os.Shell.Commands.{Env, Kernel, perform, execute_command}

abbrev pub ArePrintable : List ℕ → Type 0
ArePrintable [] = Unit
ArePrintable (c ∷ s) = ((32 ≤ c) × (c ≤ 126)) × ArePrintable s

IsLine-printable : (s : List ℕ) → ArePrintable s → IsLine s
IsLine-printable [] h = tt
IsLine-printable (c ∷ s) h = (omega arith, IsLine-printable s h.1)

-- Printable keys come behind the line, and are shown.
typed :
    (keys typed : List ℕ) (t : Terminal)
    → ArePrintable keys
    → length typed + length keys ≤ 255
    → (edit_lines keys typed ≡ typed ++ keys) × (show_keys keys typed t ≡ puts keys t)
unfolding edit_lines show_keys edit_line show_key puts
typed [] before t h fits = (sym (append-nil before), refl)
typed (c ∷ keys) before t h fits =
    let not_back : (c == 8) ≡ false = ground arith in
    let printable : (leb 32 c && leb c 126) ≡ true = ground arith in
    let room : ltb (length before) 255 ≡ true = ground arith in
    let (edited, shown) =
      typed keys (before ++ c ∷ []) (putchar c t) h.1
        (omega (arith, length-append before (c ∷ []))) in
    rw (not_back, printable, room) (edited ∙ append_assoc before (c ∷ []) keys, shown)

command_of-echo : (s : List ℕ) → command_of (codes "echo " ++ s) ≡ Command.echo
unfolding command_of same
command_of-echo s =
    let typed_some : (length (codes "echo " ++ s) == 0) ≡ false = ground arith in rw typed_some refl

module _ (env : Env) (enough : 256 ≤ env.fuel) where
  -- The texts of the shell stand outside its buffer.
  abbrev pub AreKept : Memory → Type 0
  AreKept m = (m' : Memory) → IsSameOutside env.places.cmd_buffer m m' → AreStored env.places m'

  -- `execute_command` on a line with "echo".
  execute_command-echo :
      (s : List ℕ) (t : Shell Kernel)
      → AreStored env.places t.mem
      → IsString t.mem env.places.cmd_buffer (codes "echo " ++ s)
      → length (codes "echo " ++ s) < 256
      → execute_command env 2 env.places.cmd_buffer t
        ≡ some (record t { terminal = print_text "\n" (puts s t.terminal) })
  unfolding execute_command perform
  execute_command-echo s t stored there short =
      let cmd = env.places.cmd_buffer in
      let chosen =
        choose-command_of env.places env.fuel t.mem cmd (codes "echo " ++ s) there (omega arith)
          stored
        ∙ ap some (command_of-echo s) in
      let place : cmd + 1 + 1 + 1 + 1 + 1 ≡ cmd + 5 = omega arith in
      let printed =
        writestring-puts t.mem (cmd + 5) env.fuel s t.terminal (rw place at there.2.2.2.2.2)
          (omega arith) in
      rw (chosen, printed) refl

  -- After "echo ", printable text of at most 250 characters and Enter, on an empty line and with the
  -- shell's texts outside its buffer, the shell has shown the line, printed the text on the next one
  -- and the prompt behind it, and the line is empty again.
  pub run-echo :
      (text : List ℕ) (s : Shell Kernel)
      → ArePrintable text
      → length text ≤ 250
      → s.cmd_length ≡ 0
      → AreKept s.mem
      → (s' : Shell Kernel) × (run env.places
            (execute_command env 2 env.places.cmd_buffer)
            ((codes "echo " ++ text) ++ 10 ∷ [])
            s
          ≡ some s')
        × (s'.cmd_length ≡ 0)
        × (s'.terminal
            ≡ prompt (
                print_text "\n" (puts text (putchar 10 (puts (codes "echo " ++ text) s.terminal)))))
  unfolding bytes_at
  run-echo text s printable fits empty kept =
      let keys = codes "echo " ++ text in
      let echo = execute_command env 2 env.places.cmd_buffer in
      let all : ArePrintable keys = (
        (omega arith, omega arith),
        (
          (omega arith, omega arith),
          (
            (omega arith, omega arith),
            ((omega arith, omega arith), ((omega arith, omega arith), printable)),
          ),
        ),
      ) in
      let no_line : line env.places s ≡ [] = rw empty refl in
      let (edited, shown) = typed keys [] s.terminal all (omega arith) in
      let (t, (there, short, same, screen, out), runs) =
        run-enter env.places echo keys s (IsLine-printable keys all) (omega arith)
          (rw no_line tt) in
      let line_there : IsString t.mem env.places.cmd_buffer keys = rw (no_line, edited) at there in
      let line_short : length keys < 256 = rw (no_line, edited) at short in
      let shown_there : t.terminal ≡ putchar 10 (puts keys s.terminal) =
        rw (no_line, shown) at screen in
      (
        record t { cmd_length = 0; terminal = prompt (print_text "\n" (puts text t.terminal)) },
        runs ∙ rw (execute_command-echo text t (kept t.mem out) line_there line_short) refl,
        refl,
        rw shown_there refl,
      )
