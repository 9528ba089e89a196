-- ===== src/Lib.antt =====
-- The Orbit OS kernel: a model of its C code, from the start to the shell.
--
-- The kernel is one C program for a 32-bit x86 processor. At the start (kernel/kernel.c) it fills
-- the descriptor tables (kernel/gdt.c, kernel/idt.c), routes the interrupts (kernel/isr.c,
-- drivers/pic.c), starts the timer and the keyboard (drivers/pit.c, drivers/keyboard.c), and
-- builds the bitmap of physical blocks from the memory map of the boot loader (memory/pmm.c,
-- kernel/multiboot.h). Threads are created in blocks of that memory, and the timer makes them
-- take turns (process/process.c). Page tables map the first 16 MB (memory/vmm.c), the files of
-- the ramdisk are nodes of a file system (fs/fs.c, fs/initrd.c), the network card is found on the
-- PCI bus (drivers/pci.c, drivers/e1000.c), and programs reach the kernel by interrupt 0x80
-- (kernel/syscall.c). The shell reads lines from the keyboard and runs commands on all of these
-- (shell/shell.c). Text goes to the screen and to the serial line (drivers/terminal.c). The
-- string routines of kernel/string.c serve all of them.
--
-- Files and code:
--   Base, Bits         shared names, tests, words of 8, 16 and 32 bits, integers, bit operations
--   Memory             a byte memory and its 32-bit little endian words
--   Strings            kernel/string.c; Strings/Blocks (memset, memcpy), Strings/Compare (strlen,
--                      strcmp, strncmp), Strings/Copy (strcpy), Strings/Reverse,
--                      Strings/Numeral and Strings/Itoa (reverse, itoa)
--   Multiboot          kernel/multiboot.h, field by field at the packed offsets
--   Pmm                memory/pmm.c; Pmm/Bitmap (one bit), Pmm/Count and Pmm/Alloc (the scan),
--                      Pmm/Laws (the operations), Pmm/Region, Pmm/Fresh, Pmm/Walk, Pmm/Reserved and
--                      Pmm/Init (`pmm_initialize`), Pmm/Ready (what a client needs that writes to its blocks)
--   Keyboard           drivers/keyboard.c; Keyboard/Ring and Keyboard/Refine (the buffer as a
--                      queue), Keyboard/Reading (`keyboard_getchar`)
--   Terminal           drivers/terminal.c and drivers/vga.h; Terminal/Scroll, Terminal/Putchar,
--                      Terminal/Text, Terminal/Erase (the cells), Terminal/Ports (what goes out)
--   Rtc                drivers/rtc.c; Rtc/Stable (the reading), Rtc/Decode (the formats)
--   Gdt, Idt, Pic, Isr kernel/gdt.c, kernel/idt.c, drivers/pic.c, kernel/isr.c; Gdt/Encoding and
--                      Isr/Gates (the gates)
--   Pit                drivers/pit.c; Pit/Execution and Pit/Fairness (many timer interrupts)
--   Process            process/process.c and process/switch.s; Process/Ring (the run queue),
--                      Process/Turns (`process_schedule`), Process/Switch and Process/Stack
--                      (`switch_task`), Process/Prepare, Process/Allocate, Process/Create and
--                      Process/Thread (`process_create_thread`), Process/First
--                      (`process_initialize`)
--   Vmm                memory/vmm.c; Vmm/Walk (the processor's walk through the tables), Vmm/Page and
--                      Vmm/Paged (one entry, and the tables beside the bitmap), Vmm/Table (a new
--                      table), Vmm/Map (`vmm_map_page`), Vmm/Identity (`vmm_initialize`)
--   Fs                 fs/fs.h and fs/fs.c
--   Initrd             fs/initrd.c; Initrd/Reading (`initrd_read`), Initrd/Lookup
--                      (`initrd_finddir`), Initrd/Filled and Initrd/Mount (`initrd_initialize`)
--   Pci                drivers/pci.c; Pci/Address, Pci/Search and Pci/Find (`pci_find_device`)
--   E1000              drivers/e1000.c; E1000/Window (the pages of the card's registers)
--   Syscall            kernel/syscall.c, on the registers of kernel/isr.h
--   Shell              shell/shell.c; Shell/Line (the line editor), Shell/Enter (Enter and the loop),
--                      Shell/Choice (which command), Shell/Files (the loops of ls and cat),
--                      Shell/Piece and Shell/Cat (what cat prints), Shell/Commands
--                      (`execute_command`), Shell/Session (the parts together)
--   Kernel             kernel/kernel.c; Kernel/Start (the first two processes), Kernel/Dispatch (the
--                      gates and the handlers)
--   Tests              the code on concrete inputs
--
-- State is passed explicitly. A C array is a function of its index, a byte memory a function of
-- its address, and a sequence of port writes is a list, newest first. Unsigned words are natural
-- numbers with the wrap written out (u8, u16, u32); a C `int` that can be negative is an integer.
-- Addresses of C objects and of assembly stubs, the end of the kernel and what a device answers
-- are arguments.
--
-- Loops with a known number of rounds recurse on that number. The others take fuel and return
-- `none` when it runs out: a string of n characters needs n + 1 rounds; the loop over a memory
-- region 2 ^ 20 + 1, since its 32-bit index goes up by 4096; the walk over the memory map one more
-- than the number of its entries; the walk to the end of the run queue the number of its
-- processes; the copy of a file's name its 64 bytes; `execute_command` a depth of two, since an
-- alias calls it once; the loop over entries one more than the number of files, and that over a
-- file one more than the number of its pieces of 255 bytes; the two loops of `rtc_get_time` one and
-- three on a clock that changes at most once. The scan codes during `keyboard_getchar` are lists: one
-- for each round of its wait, with those that arrive between the test and the end of the `hlt`, and
-- one for those that arrive between its read and its write of the shared indices.
--
-- Code of a process is not part of the kernel. An execution (`Pit.Execution`) is any order of timer
-- interrupts and steps in which the code that runs changes whatever it likes but the count of the
-- timer, the choice of the process, the links of the run queue and the saved stack pointers, and stays
-- on its stack; at an interrupt the stack has room for the saved registers and does not overlap the
-- records.
--
-- Not modelled: the assembly (boot/boot.s, kernel/interrupts.s, process/user.s) and the inline
-- assembly of kernel/io.h and `vmm_enable_paging`, which are not C; `thread_exit`, which prints and
-- halts, and `user_mode_function`, an endless loop without effect, are addresses on new stacks.
pub mod Base
pub mod Bits
pub mod Memory
pub mod Strings
pub mod Multiboot
pub mod Pmm
pub mod Keyboard
pub mod Terminal
pub mod Rtc
pub mod Gdt
pub mod Idt
pub mod Pic
pub mod Pit
pub mod Isr
pub mod Process
pub mod Fs
pub mod Initrd
pub mod Vmm
pub mod Pci
pub mod Syscall
pub mod E1000
pub mod Shell
pub mod Kernel
mod Tests
