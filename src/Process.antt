-- ===== src/Process.antt =====
-- process/process.c and the switch of process/switch.s. A process is a pointer to its record in
-- memory, and the run queue is the circular list through the `next` fields. The registers that the
-- inline assembly reads, the addresses of code, and `esp` at the call of `switch_task` are arguments.
pub mod Ring
pub mod Turns
pub mod Switch
pub mod Stack
pub mod Prepare
pub mod Allocate
pub mod Create
pub mod Thread
pub mod First
use orbit_os.Base.{ℕ, zero, suc, ◌+◌, ◌-◌, ◌^◌, Option, none, some, ◌==◌, if◌then◌else◌, ◌||◌}
use mathlib.Core.Option
use orbit_os.Base.{u32}
use orbit_os.Gdt.{Gdt, tss_set_stack}
use orbit_os.Memory.{Memory, load32, store32}
use orbit_os.Pmm.{Pmm, alloc_block}

-- `process_t`, at its offsets.
module _ (m : Memory) (p : ℕ) where
  abbrev pub id : ℕ
  id = load32 m p

  abbrev pub esp : ℕ
  esp = load32 m (p + 4)

  abbrev pub kernel_stack : ℕ
  kernel_stack = load32 m (p + 8)

  abbrev pub page_directory : ℕ
  page_directory = load32 m (p + 12)

  abbrev pub next : ℕ
  next = load32 m (p + 16)

pub record Processes : Type 0 where
  pub pmm : Pmm
  pub gdt : Gdt
  pub current_process : ℕ
  pub process_queue : ℕ
  pub next_pid : ℕ

abbrev pub with_mem : Memory → Pmm → Pmm
with_mem m p = record p { mem = m }

unfoldable pub initialize : ℕ → ℕ → Processes → Processes
initialize stack_pointer cr3 s =
    let (p, pmm) = alloc_block s.pmm in
    let m1 = store32 pmm.mem p s.next_pid in
    let m2 = store32 m1 (p + 16) p in
    let m3 = store32 m2 (p + 8) (stack_pointer + 4096) in
    let m4 = store32 m3 (p + 12) cr3 in
    record s {
      pmm = with_mem m4 pmm;
      current_process = p;
      process_queue = p;
      next_pid = u32 (s.next_pid + 1);
    }

-- `*(--stack) = value`
unfoldable pub push_word : ℕ → ℕ × Memory → ℕ × Memory
push_word value (stack, m) = (u32 (stack + 2 ^ 32 - 4), store32 m (u32 (stack + 2 ^ 32 - 4)) value)

-- The six words of a new stack, and where it ends.
unfoldable pub initial_stack : ℕ → ℕ → ℕ → Memory → ℕ × Memory
initial_stack thread_exit entry_point stack_top m = push_word 0 (
    push_word 0
      (push_word 0 (push_word 0 (push_word entry_point (push_word thread_exit (stack_top, m))))))

-- `while (tail->next != process_queue) tail = tail->next;`
unfoldable pub find_tail : ℕ → Memory → ℕ → ℕ → Option ℕ
find_tail zero m queue tail = none
find_tail (suc fuel) m queue tail =
    let rest = find_tail fuel m queue (next m tail) in
    if next m tail == queue then some tail else rest

-- `tail->next = proc; proc->next = process_queue;`
unfoldable pub link : ℕ → ℕ → ℕ → Memory → Memory
link queue proc tail m = store32 (store32 m (tail + 16) proc) (proc + 16) queue

unfoldable pub enqueue : ℕ → ℕ → ℕ → Memory → Option Memory
enqueue fuel queue proc m =
    Option.map (λ tail. link queue proc tail m) (find_tail fuel m queue queue)

-- The record of a new thread and its stack, before it enters the run queue.
unfoldable pub prepare : ℕ → ℕ → ℕ → ℕ → ℕ → Memory → Memory
prepare thread_exit entry_point cr3 stack_base proc m =
    let stack_top = u32 (stack_base + 4096) in
    let (stack, m') =
      initial_stack thread_exit entry_point stack_top (store32 m (proc + 8) stack_top) in
    store32 (store32 m' (proc + 4) stack) (proc + 12) cr3

-- `process_create_thread`: `proc->id` is written before the second block is allocated.
unfoldable pub create_thread : ℕ → ℕ → ℕ → ℕ → Processes → Option (ℕ × Processes)
create_thread fuel thread_exit entry_point cr3 s =
    let (proc, pmm1) = alloc_block s.pmm in
    let (stack_base, pmm2) = alloc_block (with_mem (store32 pmm1.mem proc s.next_pid) pmm1) in
    let m = prepare thread_exit entry_point cr3 stack_base proc pmm2.mem in
    Option.map (λ m'. (proc, record s { pmm = with_mem m' pmm2; next_pid = u32 (s.next_pid + 1) }))
      (enqueue fuel s.process_queue proc m)

-- The registers that `switch_task` saves or sets; `eip` is where its `ret` goes.
pub record Cpu : Type 0 where
  pub sp : ℕ
  pub ebp : ℕ
  pub ebx : ℕ
  pub esi : ℕ
  pub edi : ℕ
  pub cr3 : ℕ
  pub eip : ℕ

-- The state of the processor is saved on its stack and the stack pointer at `current_esp`.
unfoldable pub save : ℕ → Cpu → Memory → Memory
save current_esp cpu m =
    let (stack, m') =
      push_word cpu.edi (push_word cpu.esi (push_word cpu.ebx (push_word cpu.ebp (cpu.sp, m)))) in
    store32 m' current_esp stack

-- Four registers are popped from the other stack, and the return address.
unfoldable pub restore : ℕ → ℕ → Memory → Cpu
restore next_esp next_cr3 m = record {
  sp = u32 (next_esp + 20);
  edi = load32 m next_esp;
  esi = load32 m (next_esp + 4);
  ebx = load32 m (next_esp + 8);
  ebp = load32 m (next_esp + 12);
  eip = load32 m (next_esp + 16);
  cr3 = next_cr3;
}

unfoldable pub switch_task : ℕ → ℕ → ℕ → Cpu → Memory → Cpu × Memory
switch_task current_esp next_esp next_cr3 cpu m =
    (restore next_esp next_cr3 (save current_esp cpu m), save current_esp cpu m)

-- `process_schedule`: the arguments of the switch are read before it writes.
unfoldable pub schedule : Cpu → Processes → Cpu × Processes
schedule cpu s =
    let m = s.pmm.mem in
    let prev = s.current_process in
    let current = next m prev in
    let (cpu', m') = switch_task (prev + 4) (esp m current) (page_directory m current) cpu m in
    if (prev == 0) || (current == prev) then (cpu, s) else (
      cpu',
      record s {
        pmm = with_mem m' s.pmm;
        gdt = tss_set_stack 0x10 (kernel_stack m current) s.gdt;
        current_process = current;
      },
    )
