-- ===== src/Tests/Lines.antt =====
-- The shell and the system call on short lines.
use orbit_os.Base.{ℕ, ◌+◌, ◌*◌, ◌≡◌, refl, arith, String, codes}
use orbit_os.Base.{List, [], ◌∷◌, length, some, ◌>>=◌, Bool, true, ◌==◌, ◌&&◌, not}
use orbit_os.Base.{inr}
use orbit_os.Memory.{Memory, load8, store8}
use orbit_os.Strings.{IsString, strcpy}
use orbit_os.Strings.Copy.{IsCopied, strcpy-IsCopied}
use orbit_os.Terminal.{Terminal}
use orbit_os.Syscall.{Registers}
use orbit_os.Shell.{Places, Shell, Command, choose, edit, run}
use orbit_os.Shell.Line.{bytes_at, line, edit_line, edit_lines, IsShort, line-edit, show_keys}
use orbit_os.Shell.Enter.{IsCalledOn, finish, run-enter}
use orbit_os.Shell.Choice.{AreStored, command_of, choose-command_of, same}

abbrev pub screen : Terminal
screen = record { row = 3; column = 0; color = 7; cells = λ i. 0; ports = [] }

-- A string in memory, by a test.
unfoldable pub is_string : Memory → ℕ → List ℕ → Bool
is_string m a [] = load8 m a == 0
is_string m a (c ∷ s) = (load8 m a == c) && not (c == 0) && is_string m (a + 1) s

is_string-IsString : (m : Memory) (a : ℕ) (s : List ℕ) → is_string m a s ≡ true → IsString m a s
unfolding is_string
is_string-IsString m a [] h = ground arith
is_string-IsString m a (c ∷ s) h =
    (ground arith, ground arith, is_string-IsString m (a + 1) s (ground arith))

-- Texts apart from each other: no two of those that the shell knows have the same first letter and
-- the same length.
abbrev pub literal : List ℕ → ℕ
literal [] = 0
literal (c ∷ s) = 0x10000 + 0x100 * c + 0x10 * length s

abbrev write : ℕ → List ℕ → Memory → Memory
write a [] m = m
write a (c ∷ s) m = write (a + 1) s (store8 m a c)

abbrev write_all : List String → Memory → Memory
write_all [] m = m
write_all (t ∷ ts) m = write_all ts (write (literal (codes t)) (codes t) m)

abbrev texts : List String
texts =
    "help" ∷ "clear" ∷ "version" ∷ "memory" ∷ "ls" ∷ "cat " ∷ "date" ∷ "lspci" ∷ "netinfo" ∷ "exit"
    ∷ "dir" ∷ "cls" ∷ "type " ∷ "echo " ∷ []

abbrev pub places : Places
places = record { cmd_buffer = 0x200; literal = literal }

-- The texts, and "cat a" in the buffer.
abbrev pub stored : Memory
stored = write 0x200 (codes "cat a") (write_all texts (λ a. 0))

pub stored_text :
    (t : String)
    → is_string stored (literal (codes t)) (codes t) ≡ true
    → IsString stored (literal (codes t)) (codes t)
stored_text t = is_string-IsString stored (literal (codes t)) (codes t)

stored-AreStored : AreStored places stored
unfolding is_string load8 store8
stored-AreStored = (
  stored_text "help" refl,
  stored_text "clear" refl,
  stored_text "version" refl,
  stored_text "memory" refl,
  stored_text "ls" refl,
  stored_text "cat " refl,
  stored_text "date" refl,
  stored_text "lspci" refl,
  stored_text "netinfo" refl,
  stored_text "exit" refl,
  stored_text "dir" refl,
  stored_text "cls" refl,
  stored_text "type " refl,
  stored_text "echo " refl,
)

typed : IsString stored 0x200 (codes "cat a")
unfolding is_string load8 store8
typed = is_string-IsString stored 0x200 (codes "cat a") refl

choose-command_of_example : choose places 9 stored 0x200 ≡ some (command_of (codes "cat a"))
choose-command_of_example =
    choose-command_of places 9 stored 0x200 (codes "cat a") typed (omega arith) stored-AreStored

cat_chosen : command_of (codes "cat a") ≡ Command.cat
unfolding command_of same
cat_chosen = refl

strcpy-IsCopied_example :
    (m' : Memory) × (strcpy 9 stored 0x300 0x200 ≡ some m')
    × IsCopied stored 0x300 (codes "cat a") m'
strcpy-IsCopied_example =
    strcpy-IsCopied 9 stored 0x300 0x200 (codes "cat a") typed (omega arith) (inr (omega arith))

-- The shell with "cat a" typed.
abbrev shell : Shell Unit
shell = record { mem = stored; terminal = screen; cmd_length = 5; rest = tt }

line-edit_example :
    (line places (edit places 8 shell) ≡ edit_line 8 (line places shell))
    × IsShort places (edit places 8 shell)
line-edit_example = line-edit places 8 shell (omega arith)

-- The shell before anything is typed, and "ls", then Enter.
abbrev fresh : Shell Unit
fresh = record shell { cmd_length = 0 }

run-enter_example :
    (t : Shell Unit) × IsCalledOn places some
      (edit_lines (b'l' ∷ b's' ∷ []) [])
      (show_keys (b'l' ∷ b's' ∷ []) [] screen)
      fresh
      t
    × (run places some (b'l' ∷ b's' ∷ 10 ∷ []) fresh ≡ (some t >>= finish places some))
unfolding bytes_at
run-enter_example =
    run-enter places some (b'l' ∷ b's' ∷ []) fresh (omega arith, (omega arith, tt)) (omega arith) tt

-- A write of the string at 0x200 to descriptor 1, with a length of 99.
abbrev call : Registers
call = record {
  ds = 0;
  edi = 0;
  esi = 0;
  ebp = 0;
  esp = 0;
  ebx = 1;
  edx = 99;
  ecx = 0x200;
  eax = 4;
  int_no = 128;
  err_code = 0;
  eip = 0;
  cs = 0;
  eflags = 0;
  useresp = 0;
  ss = 0;
}
