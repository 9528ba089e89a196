-- ===== src/Kernel.antt =====
-- kernel/kernel.c: the start of the kernel, from the boot loader to the shell. Addresses that the
-- linker chooses, registers that inline assembly reads and the devices are fields of `Env`; the
-- routines that are registered for interrupts are functions on the state `S` they work on.
pub mod Start
pub mod Dispatch
use mathlib.Core.Option
use orbit_os.Base.{
  ℕ, zero, suc, ◌+◌, ◌-◌, ◌^◌, Option, some, none, ◌>>=◌, String, codes, List, [], ◌∷◌,
}
use orbit_os.Base.{◌==◌, ltb, not, if◌then◌else◌, bit_and, ◌<<◌, Bool, true, false}
use orbit_os.Memory.{Memory, store8}
use orbit_os.Multiboot
use orbit_os.Pmm.{Pmm}
use orbit_os.Pmm
use orbit_os.Vmm.{Vmm}
use orbit_os.Vmm
use orbit_os.Gdt
use orbit_os.Idt.{Idt}
use orbit_os.Idt
use orbit_os.Isr.{Stubs, Handlers}
use orbit_os.Isr
use orbit_os.Pit
use orbit_os.Keyboard
use orbit_os.Syscall
use orbit_os.Pci
use orbit_os.E1000.{E1000}
use orbit_os.E1000
use orbit_os.Fs.{fs_readdir, fs_finddir, fs_read, file_length}
use orbit_os.Initrd.{Layout, Initrd}
use orbit_os.Initrd
use orbit_os.Process.{Processes, create_thread}
use orbit_os.Process
use orbit_os.Terminal.{Terminal, puts, outb, serial_write_char, writestring}
use orbit_os.Terminal
use orbit_os.Shell.{Shell}
use orbit_os.Shell
use orbit_os.Shell.Commands

module _ (S : Type 0) where
  -- What the start depends on.
  pub record Env : Type 0 where
    pub stubs : Stubs
    pub gdt_entries : ℕ
    pub tss : ℕ
    pub idt_entries : ℕ
    pub pic1_mask : ℕ
    pub pic2_mask : ℕ
    pub pit_callback : S → S
    pub keyboard_callback : S → S
    pub syscall_handler : S → S
    pub kernel_end : ℕ
    pub layout : Layout
    pub hello_text : ℕ
    pub buf : ℕ
    pub bus : Pci.Device
    pub window : ℕ → ℕ
    pub stack_pointer : ℕ
    pub thread_exit : ℕ
    pub background_task : ℕ
    pub fuel : ℕ
    pub region_fuel : ℕ
    pub map_fuel : ℕ

  -- The state of the kernel while it starts; the memory and the descriptor table are in `processes`.
  pub record Kernel : Type 0 where
    pub terminal : Terminal
    pub processes : Processes
    pub idt : Idt
    pub pic_log : List (ℕ × ℕ)
    pub pit_log : List (ℕ × ℕ)
    pub handlers : Handlers S
    pub page_directory : ℕ
    pub cr3 : ℕ
    pub bus_log : Pci.Log
    pub card : E1000
    pub num_files : ℕ
    pub location : ℕ
    pub fs_root : ℕ

unfoldable pub serial_write_string : List ℕ → Terminal → Terminal
serial_write_string [] t = t
serial_write_string (c ∷ s) t = serial_write_string s (serial_write_char c t)

abbrev pub msg : List ℕ
msg =
    codes
      "================================\n          ORBIT OS\n================================\nKernel loaded successfully.\nVersion 0.1.0\nArchitecture x86\n================================\n"

-- The first line of the serial port: no interrupts, the speed, and the frame of a character.
abbrev pub initialize_serial : Terminal → Terminal
initialize_serial t =
    let speed =
      outb (0x3F8 + 1) 0x00 (outb 0x3F8 0x03 (outb (0x3F8 + 3) 0x80 (outb (0x3F8 + 1) 0x00 t))) in
    outb (0x3F8 + 4) 0x0B (outb (0x3F8 + 2) 0xC7 (outb (0x3F8 + 3) 0x03 speed))

unfoldable pub greet : Terminal → Terminal
unfolding serial_write_string
greet t = serial_write_string msg (initialize_serial (puts msg (Terminal.initialize t)))

module _ {S : Type 0} where
  abbrev pub say : String → Kernel S → Kernel S
  say s k = record k { terminal = puts (codes s) k.terminal }

  abbrev pub memory : Kernel S → Memory
  memory k = k.processes.pmm.mem

  abbrev pub with_pmm : Pmm → Kernel S → Kernel S
  with_pmm p k = record k { processes = record (k.processes) { pmm = p } }

  abbrev pub with_disk : Initrd → Kernel S → Kernel S
  with_disk disk k = record k {
    processes = record (k.processes) { pmm = record (k.processes.pmm) { mem = disk.mem } };
    num_files = disk.num_files;
    location = disk.location;
    fs_root = disk.fs_root;
  }

  abbrev pub with_memory : Memory → Kernel S → Kernel S
  with_memory m k = with_pmm (record (k.processes.pmm) { mem = m }) k

module _ {S : Type 0} (env : Env S) where
  -- The descriptor tables, the interrupts, the timer and the keyboard.
  unfoldable pub start_cpu : Kernel S → Kernel S
  start_cpu k =
      let t = puts (codes "Initializing CPU...\n") k.terminal in
      let gdt = Gdt.initialize env.gdt_entries env.tss k.processes.gdt in
      let (idt, pic_log, cleared) =
        Isr.initialize env.stubs env.pic1_mask env.pic2_mask (Idt.initialize env.idt_entries k.idt)
          k.pic_log k.handlers in
      let (timed, pit_log, t') = Pit.initialize env.pit_callback 100 cleared k.pit_log t in
      say "Hardware initialized.\n" (record k {
        terminal = t';
        processes = record (k.processes) { gdt = gdt };
        idt = idt;
        pic_log = pic_log;
        pit_log = pit_log;
        handlers = Keyboard.initialize env.keyboard_callback timed;
      })

  -- The blocks, the page tables, which `vmm_enable_paging` loads where there is a directory, and the
  -- network card.
  unfoldable pub start_memory : ℕ → Kernel S → Option (Kernel S)
  start_memory mbi k = do
    pmm ← Pmm.initialize env.region_fuel env.map_fuel (memory k) mbi env.kernel_end
    let v = Vmm.initialize (record { pmm = pmm; page_directory = k.page_directory })
    let (bus_log, v', card) = E1000.initialize env.bus env.window k.bus_log v k.card
    let said = say "Memory initialized.\n" k
    some (
        with_pmm v'.pmm (record said {
          page_directory = v'.page_directory;
          cr3 = if v.page_directory == 0 then k.cr3 else v.page_directory;
          bus_log = bus_log;
          card = card;
        }))

  -- The functions that `initrd_initialize` stores in the nodes.
  abbrev pub readdir : ℕ → ℕ → ℕ → ℕ → Memory → Option (ℕ × Memory)
  readdir num_files op node index m = Initrd.readdir env.layout env.fuel num_files node index m

  abbrev pub finddir : ℕ → ℕ → ℕ → ℕ → Memory → Option (ℕ × Memory)
  finddir num_files op node name m = Initrd.finddir env.layout env.fuel num_files node name m

  abbrev pub read : ℕ → ℕ → ℕ → ℕ → ℕ → Memory → ℕ × Memory
  read op node offset size buffer m = Initrd.read node offset size buffer m

  -- `terminal_writestring` on a string in memory.
  abbrev pub show : ℕ → Kernel S → Option (Kernel S)
  show text k =
      Option.map (λ t. record k { terminal = t }) (writestring env.fuel (memory k) text k.terminal)

  -- `for (int i = …; i < 10; i++)`, with `left` rounds to go.
  unfoldable pub list_files : ℕ → ℕ → Kernel S → Option (Kernel S)
  list_files zero i k = some k
  list_files (suc left) i k = do
    (d, m) ← fs_readdir (readdir k.num_files) k.fs_root i (memory k)
    let k' = with_memory m k
    shown ← if d == 0 then some k' else Option.map (say "\n") (show d (say " - " k'))
    list_files left (i + 1) shown

  -- "Test VFS!"
  unfoldable pub test_files : Kernel S → Option (Kernel S)
  test_files k = do
    (hello_file, m) ← fs_finddir (finddir k.num_files) k.fs_root env.hello_text (memory k)
    let found = with_memory m k
    if hello_file == 0 then some (say "ERROR: hello.txt not found in initrd.\n" found) else (do
      let (bytes, m') = fs_read read hello_file 0 (file_length m hello_file) env.buf m
      let filled = with_memory (store8 m' (env.buf + bytes) 0) found
      Option.map (say "\n") (show env.buf (say "Read from VFS (hello.txt): " filled)))

  -- The ramdisk of the boot loader's first module.
  unfoldable pub mount : ℕ → Kernel S → Option (Kernel S)
  unfolding list_files test_files
  mount mbi k =
      let m = memory k in
      if bit_and (Multiboot.flags m mbi) (1 << 3) == 0
      then some (say "WARNING: No initrd module loaded by GRUB.\n" k)
      else if not (ltb 0 (Multiboot.mods_count m mbi))
      then some k
      else do
        disk ←
            Initrd.initialize env.layout env.fuel
              (Multiboot.mod_start m (Multiboot.mods_addr m mbi) 0)
              (record {
                mem = m;
                num_files = k.num_files;
                location = k.location;
                fs_root = k.fs_root;
              })
        listed ← list_files 10 0 (say "Initrd filesystem mounted. Files:\n" (with_disk disk k))
        test_files listed

  -- What follows once the background thread is there: the system calls, and the interrupts go on.
  abbrev pub go_on : Processes → Kernel S → Kernel S
  go_on processes k =
      let spawned =
        say "Process manager initialized. Spawned background thread.\n"
          (record k { processes = processes }) in
      say "Interrupts enabled.\n\n" (
        say "Syscalls initialized.\n"
          (record spawned { handlers = Syscall.initialize env.syscall_handler spawned.handlers }))

  -- The processes and the system calls.
  unfoldable pub start_processes : Kernel S → Option (Kernel S)
  start_processes k = do
    (proc, processes) ←
        create_thread env.fuel env.thread_exit env.background_task k.cr3
          (Process.initialize env.stack_pointer k.cr3 k.processes)
    some (go_on processes k)

  -- `kernel_main` from the check of the magic number up to the shell.
  unfoldable pub boot : ℕ → Kernel S → Option (Kernel S)
  unfolding start_memory mount start_processes start_cpu
  boot mbi k = do
    started ← start_memory mbi (start_cpu k)
    mounted ← mount mbi started
    start_processes mounted

  -- What the shell works on.
  abbrev pub to_shell : Kernel S → Shell Commands.Kernel
  to_shell k = record {
    mem = memory k;
    terminal = k.terminal;
    cmd_length = 0;
    rest = record {
      pmm = k.processes.pmm;
      fs_root = k.fs_root;
      bus_log = k.bus_log;
      card = k.card;
      words_out = [];
    };
  }

  -- `kernel_main` on the keys that arrive at the shell. With the right magic number the C function does
  -- not return; here the run ends when the keys do.
  unfoldable pub kernel_main :
      Commands.Env → List ℕ → ℕ → ℕ → Kernel S → Option (Shell Commands.Kernel)
  unfolding boot greet
  kernel_main shell_env keys magic mbi k =
      let greeted = record k { terminal = greet k.terminal } in
      if not (magic == 0x2BADB002)
      then some (to_shell (say "ERROR: Invalid Multiboot Magic!\n" greeted))
      else (do
        started ← boot mbi greeted
        Commands.shell_run shell_env keys (Shell.initialize shell_env.places (to_shell started)))
