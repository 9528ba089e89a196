-- ===== src/Tests/Boot.antt =====
-- The two processes at the end of the start, where blocks 3, 5 and 6 are free.
use orbit_os.Base.{ℕ, ◌+◌, ◌*◌, [], some, none}
use orbit_os.Base.{Option, false}
use orbit_os.Memory.{store32}
use orbit_os.Pmm.{Pmm}
use orbit_os.Process
use orbit_os.Pmm
use orbit_os.Idt
use orbit_os.Kernel.{Env, Kernel, start_processes}
use orbit_os.Kernel.Start.{stacks_of}
use orbit_os.Pit.{pit_callback}
use orbit_os.Pit.Execution.{Stacks}
use orbit_os.Tests.Threads.{running}

-- The state that the handlers work on counts their calls.
abbrev env : Env ℕ
env = record {
  stubs = record { isr = λ i. 0x8000 + 16 * i; irq = λ i. 0x8800 + 16 * i; isr128 = 0x9000 };
  gdt_entries = 0x4000;
  tss = 0x4100;
  idt_entries = 0x5000;
  pic1_mask = 0;
  pic2_mask = 0;
  pit_callback = λ s. s + 1;
  keyboard_callback = λ s. s + 2;
  syscall_handler = λ s. s + 3;
  kernel_end = 0x100000;
  layout = record {
    nodes = 0x20000;
    root_node = 0x30000;
    dir_cache = 0x31000;
    root_text = 0x32000;
    read_code = 0x600;
    readdir_code = 0x700;
    finddir_code = 0x800;
  };
  hello_text = 0x32010;
  buf = 0x33000;
  bus = λ log. 0x100E8086;
  window = λ a. 0;
  stack_pointer = 0x7000;
  thread_exit = 0x500;
  background_task = 0x600;
  fuel = 1;
  region_fuel = 1;
  map_fuel = 1;
}

abbrev blocks : Pmm
blocks = record {
  mem = store32 (λ a. 0) 0x100000 0x97;
  bitmap = 0x100000;
  max_blocks = 8;
  used_blocks = 5;
}

abbrev kernel_of : Pmm → Kernel ℕ
kernel_of p = record {
  terminal = record { row = 0; column = 0; color = 7; cells = λ i. 0; ports = [] };
  processes = record running { pmm = p; current_process = 0; process_queue = 0 };
  idt = record { entries = λ i. Idt.absent; ptr_limit = 0; ptr_base = 0 };
  pic_log = [];
  pit_log = [];
  handlers = λ n. none;
  page_directory = 0;
  cr3 = 0x9000;
  bus_log = [];
  card = record { mmio_base = 0; mac_addr = λ i. 0; found = false };
  num_files = 0;
  location = 0;
  fs_root = 0;
}

abbrev kernel : Kernel ℕ
kernel = kernel_of blocks

abbrev kernel_or : Kernel ℕ → Option (Kernel ℕ) → Kernel ℕ
kernel_or k none = k
kernel_or k (some k') = k'

abbrev spawned : Kernel ℕ
spawned = kernel_or kernel (start_processes env kernel)

abbrev stacks : Stacks
stacks = stacks_of 0x7000 0x8000 spawned.processes
