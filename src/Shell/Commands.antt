-- ===== src/Shell/Commands.antt =====
-- `execute_command`: what each command does. A local array of a command stands at an address that
-- the compiler chooses.
use orbit_os.Base.{ℕ, zero, suc, ◌+◌, ◌/◌, Option, some, none, ◌>>=◌, codes}
use orbit_os.Base.{ltb, if◌then◌else◌, List, ◌∷◌, String, bit_and, ◌>>◌}
use orbit_os.Base.Int.{pos}
use orbit_os.Memory.{Memory}
use orbit_os.Strings.{itoa, strcpy}
use orbit_os.Pmm.{Pmm, get_total_memory, get_used_memory, get_free_memory}
use orbit_os.Terminal.{Terminal, writestring, putchar}
use orbit_os.Terminal
use orbit_os.Rtc
use orbit_os.Pci
use orbit_os.E1000.{E1000, is_found, get_mac}
use orbit_os.Shell.{Places, Command, Shell, choose, print_text, banner, run}
use orbit_os.Shell.Files.{Code, list, cat}

-- What a command runs in: the linker's and the compiler's addresses, fuel for strings, for the
-- rounds of the loops over files and for the clock, the code at the pointers of the nodes, and the
-- devices. `first_read` is the number of the clock's first answer to this command.
pub record Env : Type 0 where
  pub places : Places
  pub buf : ℕ
  pub temp : ℕ
  pub fuel : ℕ
  pub rounds : ℕ
  pub wait_fuel : ℕ
  pub code : Code
  pub clock : Rtc.Device
  pub first_read : ℕ
  pub bus : Pci.Device

-- The rest of the kernel's state that a command reads or changes.
pub record Kernel : Type 0 where
  pub pmm : Pmm
  pub fs_root : ℕ
  pub bus_log : Pci.Log
  pub card : E1000
  pub words_out : List (ℕ × ℕ)

abbrev pub hex_pair : ℕ → Terminal → Terminal
hex_pair byte t = putchar (Pci.hex_char (bit_and byte 0x0F)) (putchar (Pci.hex_char (byte >> 4)) t)

-- The loop over the bytes of the address from `i` on.
unfoldable pub print_mac : ℕ → ℕ → (ℕ → ℕ) → Terminal → Terminal
print_mac zero i mac t = t
print_mac (suc left) i mac t =
    let shown = hex_pair (mac i) t in
    print_mac left (i + 1) mac (if ltb i 5 then putchar b':' shown else shown)

unfoldable pub help : Terminal → Terminal
help t =
    let first = print_text "  memory  - Display memory statistics\n" (
      print_text "  version - Display OS version\n" (
        print_text "  clear   - Clear the terminal screen\n" (
          print_text "  help    - Show this help message\n"
            (print_text "Available commands:\n" t)))) in
    print_text "  echo    - Print text to the screen (usage: echo <text>)\n" (
      print_text "  lspci   - List PCI devices\n" (
        print_text "  date    - Show current date and time\n" (
          print_text "  cat     - Read a file (e.g. cat hello.txt)\n"
            (print_text "  ls      - List files in rootfs\n" first))))

unfoldable pub netinfo : E1000 → Terminal → Terminal
unfolding print_mac
netinfo card t =
    if is_found card
    then (print_text "\n" (
        print_mac 6 0 (get_mac card (λ i. 0))
          (print_text "MAC Address: " (print_text "Intel E1000 (8254x) Gigabit Ethernet\n" t))))
    else print_text "No compatible network adapter found.\n" t

module _ (env : Env) where
  -- `terminal_writestring(itoa(n, buf, 10))`, between two texts.
  unfoldable pub print_number : String → ℕ → String → Memory × Terminal → Option (Memory × Terminal)
  print_number before n behind (m, t) = do
    m' ← itoa env.fuel m (pos n) env.buf 10
    t' ← writestring env.fuel m' env.buf (print_text before t)
    some (m', print_text behind t')

  unfoldable pub memory : Pmm → Memory × Terminal → Option (Memory × Terminal)
  unfolding print_number
  memory pmm (m, t) = do
    s1 ←
        print_number "  Total Memory: " (get_total_memory pmm / 1024) " KB\n"
          (m, print_text "Memory Statistics:\n" t)
    s2 ← print_number "  Used Memory:  " (get_used_memory pmm / 1024) " KB\n" s1
    print_number "  Free Memory:  " (get_free_memory pmm / 1024) " KB\n" s2

  -- A field of the date with two digits.
  abbrev pub print_two : ℕ → String → Memory × Terminal → Option (Memory × Terminal)
  print_two n behind s = print_number (if ltb n 10 then "0" else "") n behind s

  unfoldable pub date : Memory × Terminal → Option (Memory × Terminal)
  unfolding print_number
  date s = do
    time ← Rtc.get_time env.wait_fuel env.rounds env.clock env.first_read
    s1 ← print_number "" time.year "-" s
    s2 ← print_two time.month "-" s1
    s3 ← print_two time.day " " s2
    s4 ← print_two time.hour ":" s3
    s5 ← print_two time.minute ":" s4
    print_two time.second "\n" s5

  -- The memory and the terminal after a command that changes only these.
  abbrev pub shown : Shell Kernel → Option (Memory × Terminal) → Option (Shell Kernel)
  shown s r = do (m, t) ← r; some (record s { mem = m; terminal = t })

  abbrev pub say : Shell Kernel → Terminal → Option (Shell Kernel)
  say s t = some (record s { terminal = t })

  -- A command at `cmd`; `again` is `execute_command` for the aliases.
  unfoldable pub perform :
      (ℕ → Shell Kernel → Option (Shell Kernel))
      → Command
      → ℕ
      → Shell Kernel
      → Option (Shell Kernel)
  unfolding memory date help netinfo
  perform again Command.empty cmd s = some s
  perform again Command.help cmd s = say s (help s.terminal)
  perform again Command.clear cmd s = say s (Terminal.initialize s.terminal)
  perform again Command.version cmd s = say s (print_text "Orbit OS v0.1.0\n" s.terminal)
  perform again Command.memory cmd s = shown s (memory s.rest.pmm (s.mem, s.terminal))
  perform again Command.ls cmd s =
      shown s (list env.code env.fuel env.rounds s.rest.fs_root s.mem s.terminal)
  perform again Command.cat cmd s =
      shown s (cat env.code env.fuel env.rounds s.rest.fs_root (cmd + 4) env.buf s.mem s.terminal)
  perform again Command.date cmd s = shown s (date (s.mem, s.terminal))
  perform again Command.lspci cmd s =
      let (log, t) = Pci.enumerate env.bus s.rest.bus_log s.terminal in
      some (record s { terminal = t; rest = record (s.rest) { bus_log = log } })
  perform again Command.netinfo cmd s = say s (netinfo s.rest.card s.terminal)
  perform again Command.exit cmd s = some (record s {
    terminal = print_text "Shutting down QEMU...\n" s.terminal;
    rest = record (s.rest) {
      words_out = (0x4004, 0x3400) ∷ (0x604, 0x2000) ∷ (0xB004, 0x2000) ∷ s.rest.words_out;
    };
  })
  perform again Command.dir cmd s = again (env.places.literal (codes "ls")) s
  perform again Command.cls cmd s = again (env.places.literal (codes "clear")) s
  perform again Command.type cmd s = do
    m1 ← strcpy env.fuel s.mem env.temp (env.places.literal (codes "cat "))
    m2 ← strcpy env.fuel m1 (env.temp + 4) (cmd + 5)
    again env.temp (record s { mem = m2 })
  perform again Command.echo cmd s = do
    t ← writestring env.fuel s.mem (cmd + 5) s.terminal
    say s (print_text "\n" t)
  perform again Command.unknown cmd s = do
    t ← writestring env.fuel s.mem cmd (print_text "Unknown command: " s.terminal)
    say s (print_text "\n" t)

  -- An alias calls `execute_command` once more, so a depth of 2 is enough.
  unfoldable pub execute_command : ℕ → ℕ → Shell Kernel → Option (Shell Kernel)
  unfolding perform
  execute_command zero cmd s = none
  execute_command (suc depth) cmd s = do
    command ← choose env.places env.fuel s.mem cmd
    perform (execute_command depth) command cmd s

  -- `shell_run` on the keys that arrive.
  unfoldable pub shell_run : List ℕ → Shell Kernel → Option (Shell Kernel)
  unfolding execute_command
  shell_run keys s =
      run env.places (execute_command 2 env.places.cmd_buffer) keys
        (record s { terminal = banner s.terminal })
