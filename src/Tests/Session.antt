-- ===== src/Tests/Session.antt =====
-- "echo hi" in a kernel whose devices answer 0.
use orbit_os.Base.{◌≤◌, ◌≡◌, refl, arith, codes, String, [], ◌∷◌, ◌++◌, some, false}
use orbit_os.Base.{inr}
use orbit_os.Memory.{Memory, load8, store8}
use orbit_os.Strings.{IsString}
use orbit_os.Strings.Copy.{IsString-same}
use orbit_os.Terminal.{puts, putchar}
use orbit_os.Initrd
use orbit_os.Shell.{Shell, print_text, prompt, run}
use orbit_os.Shell.Piece.{IsSameOutside}
use orbit_os.Shell.Commands.{Env, Kernel, execute_command}
use orbit_os.Shell.Session.{AreKept, run-echo}
use orbit_os.Tests.Lines.{screen, literal, places, stored, stored_text, is_string}

abbrev env : Env
env = record {
  places = places;
  buf = 0x800;
  temp = 0xA00;
  fuel = 256;
  rounds = 9;
  wait_fuel = 9;
  code = record {
    readdir = λ op node index m. some (0, m);
    finddir = λ op node name m. some (0, m);
    read = λ op node offset size b m. Initrd.read node offset size b m;
  };
  clock = λ n reg. 0;
  first_read = 0;
  bus = λ log. 0;
}

abbrev kernel : Kernel
kernel = record {
  pmm = record { mem = stored; bitmap = 0x100000; max_blocks = 8; used_blocks = 7 };
  fs_root = 0;
  bus_log = [];
  card = record { mmio_base = 0; mac_addr = λ i. 0; found = false };
  words_out = [];
}

abbrev shell : Shell Kernel
shell = record { mem = stored; terminal = screen; cmd_length = 0; rest = kernel }

-- A text that stands behind the buffer stays where it is.
kept_text :
    (m' : Memory)
    → IsSameOutside 0x200 stored m'
    → (t : String) → 0x300 ≤ literal (codes t)
    → IsString stored (literal (codes t)) (codes t)
    → IsString m' (literal (codes t)) (codes t)
kept_text m' same t behind =
    IsString-same stored m' (literal (codes t)) (codes t) (λ a ge le. same a (inr (omega arith)))

stored-AreKept : AreKept env (omega arith) stored
unfolding is_string load8 store8
stored-AreKept m' same = (
  kept_text m' same "help" (omega arith) (stored_text "help" refl),
  kept_text m' same "clear" (omega arith) (stored_text "clear" refl),
  kept_text m' same "version" (omega arith) (stored_text "version" refl),
  kept_text m' same "memory" (omega arith) (stored_text "memory" refl),
  kept_text m' same "ls" (omega arith) (stored_text "ls" refl),
  kept_text m' same "cat " (omega arith) (stored_text "cat " refl),
  kept_text m' same "date" (omega arith) (stored_text "date" refl),
  kept_text m' same "lspci" (omega arith) (stored_text "lspci" refl),
  kept_text m' same "netinfo" (omega arith) (stored_text "netinfo" refl),
  kept_text m' same "exit" (omega arith) (stored_text "exit" refl),
  kept_text m' same "dir" (omega arith) (stored_text "dir" refl),
  kept_text m' same "cls" (omega arith) (stored_text "cls" refl),
  kept_text m' same "type " (omega arith) (stored_text "type " refl),
  kept_text m' same "echo " (omega arith) (stored_text "echo " refl),
)

run-echo_example :
    (s' : Shell Kernel) × (run places
        (execute_command env 2 0x200)
        ((codes "echo " ++ codes "hi") ++ 10 ∷ [])
        shell
      ≡ some s')
    × (s'.cmd_length ≡ 0)
    × (s'.terminal
        ≡ prompt (
            print_text "\n"
              (puts (codes "hi") (putchar 10 (puts (codes "echo " ++ codes "hi") screen)))))
run-echo_example =
    run-echo env (omega arith) (codes "hi") shell
      ((omega arith, omega arith), ((omega arith, omega arith), tt)) (omega arith) refl
      stored-AreKept
