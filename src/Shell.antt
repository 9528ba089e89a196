-- ===== src/Shell.antt =====
-- shell/shell.c: the line editor and the choice of the command. The buffer, the rest of memory and
-- the devices are fields of the state; a literal text stands where the linker puts it.
pub mod Line
pub mod Enter
pub mod Choice
pub mod Files
pub mod Commands
pub mod Piece
pub mod Cat
pub mod Session
use orbit_os.Base.{ℕ, zero, suc, ◌+◌, ◌-◌, ◌^◌, Option, some, none, ◌>>=◌, String, codes}
use orbit_os.Base.{◌==◌, ◌&&◌, leb, ltb, if◌then◌else◌, List, [], ◌∷◌, bit_or, Bool}
use orbit_os.Base.Int.{ℤ}
use orbit_os.Memory.{Memory, store8}
use orbit_os.Strings.{memset, strlen, strcmp, strncmp, is_zero}
use orbit_os.Terminal.{Terminal, putchar, puts, setcolor, vga_entry_color}

-- The addresses that the linker and the compiler choose; `literal` is where a text stands.
pub record Places : Type 0 where
  pub cmd_buffer : ℕ
  pub literal : List ℕ → ℕ

abbrev pub cmd_buffer_size : ℕ
cmd_buffer_size = 256

abbrev pub print_text : String → Terminal → Terminal
print_text s t = puts (codes s) t

-- `VGA_COLOR_LIGHT_GREEN`, `VGA_COLOR_WHITE` and `VGA_COLOR_LIGHT_CYAN` on black.
abbrev pub light_green : ℕ
light_green = vga_entry_color 10 0

abbrev pub white : ℕ
white = vga_entry_color 15 0

abbrev pub light_cyan : ℕ
light_cyan = vga_entry_color 11 0

unfoldable pub prompt : Terminal → Terminal
prompt t = setcolor white (print_text "Orbit> " (setcolor light_green t))

-- The banner before the loop.
unfoldable pub banner : Terminal → Terminal
banner t =
    let logo = print_text "  \\____/|_|  |_.__/|_|\\__|  \\___/|____/ \n\n" (
      print_text " | |__| | |  | |_) | | |_  | |_| |___) |\n" (
        print_text " | |  | | '__| '_ \\| | __| | | | \\___ \\ \n" (
          print_text "  / __ \\ _ __| |__ (_) |_   / _ \\/ ___| \n"
            (print_text "   ____       _     _ _      ___  ____  \n" (setcolor light_cyan t))))) in
    let welcome = setcolor light_cyan (print_text " Welcome to " (setcolor white logo)) in
    prompt (
      print_text "! Type 'help' for a list of commands.\n\n"
        (setcolor white (print_text "Orbit OS" welcome)))

-- The commands, in the order in which the code tries them.
pub data Command : Type 0 where
  empty help clear version memory ls cat date lspci netinfo exit dir cls type echo unknown : Command

module _ (places : Places) (fuel : ℕ) (m : Memory) (cmd : ℕ) where
  -- `strcmp(cmd, text) == 0`, and `strncmp(cmd, text, n) == 0` at the text's own length.
  abbrev pub is_text : String → Option Bool
  is_text s = do r ← strcmp fuel m cmd (places.literal (codes s)); some (is_zero r)

  abbrev pub has_prefix : String → ℕ → Bool
  has_prefix s n = is_zero (strncmp m cmd (places.literal (codes s)) n)

  abbrev pub try : String → Command → Option Command → Option Command
  try s command rest = do same ← is_text s; if same then some command else rest

  -- The tests of `execute_command`, one after the other: the last three, those from "date" on, and
  -- all of them.
  abbrev pub choose_argument : Option Command
  choose_argument =
      if has_prefix "type " 5
      then some Command.type
      else if has_prefix "echo " 5
      then some Command.echo
      else some Command.unknown

  abbrev pub choose_later : Option Command
  choose_later = try "date" Command.date (
      try "lspci" Command.lspci (
        try "netinfo" Command.netinfo (
          try "exit" Command.exit (try "dir" Command.dir (try "cls" Command.cls choose_argument)))))

  unfoldable pub choose : Option Command
  choose = do
    size ← strlen fuel m cmd
    if size == 0
        then some Command.empty
        else (try "help" Command.help (
            try "clear" Command.clear (
              try "version" Command.version (
                try "memory" Command.memory (
                  try "ls" Command.ls
                    (if has_prefix "cat " 4 then some Command.cat else choose_later))))))

-- The static variables and the rest of the kernel's state that a command works on.
module _ (S : Type 0) where
  pub record Shell : Type 0 where
    pub mem : Memory
    pub terminal : Terminal
    pub cmd_length : ℕ
    pub rest : S

module _ {S : Type 0} (places : Places) where
  -- `shell_initialize`
  unfoldable pub initialize : Shell S → Shell S
  initialize s = record s { cmd_length = 0; mem = memset s.mem places.cmd_buffer 0 cmd_buffer_size }

  -- A key other than Enter.
  unfoldable pub edit : ℕ → Shell S → Shell S
  edit c s =
      if c == 8
      then (if ltb 0 s.cmd_length
          then record s { cmd_length = s.cmd_length - 1; terminal = putchar 8 s.terminal }
          else s)
      else if leb 32 c && leb c 126
      then (if ltb s.cmd_length (cmd_buffer_size - 1)
          then record s {
            mem = store8 s.mem (places.cmd_buffer + s.cmd_length) c;
            cmd_length = s.cmd_length + 1;
            terminal = putchar c s.terminal;
          }
          else s)
      else s

  -- Enter, with what `execute_command` does to the state as a parameter: it may not end.
  unfoldable pub enter : (Shell S → Option (Shell S)) → Shell S → Option (Shell S)
  enter execute s = do
    s' ← execute (record s {
      terminal = putchar 10 s.terminal;
      mem = store8 s.mem (places.cmd_buffer + s.cmd_length) 0;
    })
    some (record s' { cmd_length = 0; terminal = prompt s'.terminal })

  -- The loop of `shell_run` on the keys that arrive.
  unfoldable pub run : (Shell S → Option (Shell S)) → List ℕ → Shell S → Option (Shell S)
  unfolding edit enter
  run execute [] s = some s
  run execute (c ∷ keys) s =
      let edited = run execute keys (edit c s) in
      let entered = (do s' ← enter execute s; run execute keys s') in
      if c == 10 then entered else edited
