-- ===== src/Tests/Threads.antt =====
-- Three processes in the run queue, and the switch between two of them.
use orbit_os.Base.{All, some, inr, ℕ, ◌+◌, ◌-◌, ◌≡◌, refl, arith, List, [], ◌∷◌, ◌++◌, inl, u32}
use orbit_os.Memory.{Memory, load8, store8, load32, store32}
use orbit_os.Gdt
use orbit_os.Gdt.{Gdt}
use orbit_os.Process.{
  enqueue, Processes, Cpu, schedule, kernel_stack, page_directory, esp, save, restore,
  initial_stack,
}
use orbit_os.Process.Ring.{IsRing, IsRing-enqueue}
use orbit_os.Process.Turns.{IsRing-schedule}
use orbit_os.Process.Switch.{IsSavable, restore-save}
use orbit_os.Process.Stack.{started, restore-initial_stack}

-- The records at 0x1000, 0x2000 and 0x3000.
abbrev three : Memory
three = store32 (store32 (store32 (λ a. 0) 0x1010 0x2000) 0x2010 0x3000) 0x3010 0x1000

abbrev others : List ℕ
others = 0x2000 ∷ 0x3000 ∷ []

three-IsRing : IsRing three 0x1000 others
unfolding load8 store8 load32 store32
three-IsRing = (
  (refl, omega arith, (refl, omega arith, refl)),
  ((inl (omega arith), (inl (omega arith), tt)), ((inl (omega arith), tt), (tt, tt))),
)

abbrev no_segments : Gdt
no_segments = record {
  entries = λ i. Gdt.gate 0 0 0 0;
  ptr_limit = 0;
  ptr_base = 0;
  tss = record {
    ss0 = 0;
    esp0 = 0;
    cs = 0;
    ss = 0;
    ds = 0;
    es = 0;
    fs = 0;
    gs = 0;
    iomap_base = 0;
  };
}

abbrev pub running : Processes
running = record {
  pmm = record { mem = three; bitmap = 0x8000; max_blocks = 8; used_blocks = 8 };
  gdt = no_segments;
  current_process = 0x1000;
  process_queue = 0x1000;
  next_pid = 4;
}

abbrev pub cpu : Cpu
cpu = record { sp = 0x7FF0; ebp = 1; ebx = 2; esi = 3; edi = 4; cr3 = 0x9000; eip = 0 }

IsRing-schedule_example :
    ((schedule cpu running).1.current_process ≡ 0x2000)
    × IsRing (schedule cpu running).1.pmm.mem 0x2000 ((0x3000 ∷ []) ++ 0x1000 ∷ [])
    × ((schedule cpu running).1.gdt.tss.esp0 ≡ kernel_stack three 0x2000)
    × ((schedule cpu running).0
        ≡ restore (esp three 0x2000) (page_directory three 0x2000) (schedule cpu running).1.pmm.mem)
    × ((schedule cpu running).0.cr3 ≡ page_directory three 0x2000)
    × ((schedule cpu running).0.sp ≡ u32 (esp three 0x2000 + 20))
    × (esp (schedule cpu running).1.pmm.mem 0x1000 ≡ 0x7FF0 - 16)
    × All (λ p. esp (schedule cpu running).1.pmm.mem p ≡ esp three p) (0x2000 ∷ 0x3000 ∷ [])
IsRing-schedule_example =
    IsRing-schedule cpu running 0x2000 (0x3000 ∷ []) (omega arith) (omega arith) (omega arith)
      three-IsRing (inl (omega arith), (inl (omega arith), (inl (omega arith), tt)))

cpu-IsSavable : IsSavable 0x1004 cpu
cpu-IsSavable = omega arith

restore-save_example :
    restore (load32 (save 0x1004 cpu three) 0x1004) 0x9000 (save 0x1004 cpu three)
    ≡ record cpu { sp = u32 (0x7FF0 + 4); eip = load32 three 0x7FF0 }
restore-save_example =
    restore-save 0x1004 cpu three (save 0x1004 cpu three) cpu-IsSavable (λ b h. refl)

restore-initial_stack_example :
    (restore
        (initial_stack 0x500 0x600 0x5000 three).0
        0x9000
        (initial_stack 0x500 0x600 0x5000 three).1
      ≡ started 0x600 0x5000 0x9000)
    × (load32 (initial_stack 0x500 0x600 0x5000 three).1 (0x5000 - 4) ≡ u32 0x500)
restore-initial_stack_example =
    restore-initial_stack 0x500 0x600 0x5000 0x9000 three (omega arith) (omega arith)

IsRing-enqueue_example :
    (m' : Memory) × (enqueue 3 0x1000 0x4000 three ≡ some m')
    × IsRing m' 0x1000 (others ++ 0x4000 ∷ [])
IsRing-enqueue_example =
    IsRing-enqueue three 0x1000 0x4000 3 others (omega arith) (omega arith) three-IsRing
      (inr (omega arith), (inr (omega arith), (inr (omega arith), tt))) (omega arith)
