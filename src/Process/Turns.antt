-- ===== src/Process/Turns.antt =====
-- `process_schedule`: the processes take turns.
use mathlib.Core.Path.{subst}
use orbit_os.Base.{ℕ, ◌+◌, ◌-◌, ◌<◌, ◌≤◌, ◌≡◌, ◌≢◌, ◌⊎◌, ◌∙◌, refl, arith, sym, inl, inr}
use orbit_os.Base.{All, List, [], ◌∷◌, ◌++◌, ◌==◌, false, u32, ◌^◌}
use orbit_os.Gdt.{tss_set_stack}
use orbit_os.Memory.{Memory, load32, store32, load32-store32_ne, load32-store32_self}
use orbit_os.Process.{
  Processes, Cpu, next, push_word, save, restore, switch_task, schedule, kernel_stack,
  page_directory, esp, with_mem,
}
use orbit_os.Process.Switch.{frame, save-frame}
use orbit_os.Process.Ring.{Linked, Apart, AllApart, IsSpread-append, IsRing}

-- The 16 bytes that the switch pushes lie outside the record of process `p`.
abbrev pub OffStack : ℕ → ℕ → Type 0
OffStack sp p = (p + 20 + 16 ≤ sp) ⊎ (sp ≤ p)

pub Linked-same :
    (m m' : Memory) (P : ℕ → Type 0) (a : ℕ) (xs : List ℕ) (stop : ℕ)
    → ((p : ℕ) → P p → next m' p ≡ next m p)
    → All P (a ∷ xs)
    → Linked m a xs stop
    → Linked m' a xs stop
Linked-same m m' P a [] stop f h l = f a h.0 ∙ l
Linked-same m m' P a (x ∷ xs) stop f h l =
    (f a h.0 ∙ l.0, l.1, Linked-same m m' P x xs stop f h.1 l.2)

Linked-extend :
    (m : Memory) (a c stop : ℕ) (xs : List ℕ)
    → Linked m a xs c
    → next m c ≡ stop
    → AllApart stop xs
    → c ≢ stop
    → Linked m a (xs ++ c ∷ []) stop
Linked-extend m a c stop [] l e h ne = (l, ne, e)
Linked-extend m a c stop (x ∷ xs) l e h ne =
    (l.0, omega arith, Linked-extend m x c stop xs l.2 e h.1 ne)

-- Where a word is not written by the switch away from `prev`.
load32-save :
    (prev : ℕ) (cpu : Cpu) (m : Memory) (a : ℕ)
    → 16 ≤ cpu.sp
    → cpu.sp < 2 ^ 32
    → (a + 4 + 16 ≤ cpu.sp) ⊎ (cpu.sp ≤ a)
    → (a + 4 ≤ prev + 4) ⊎ (prev + 8 ≤ a)
    → load32 (save (prev + 4) cpu m) a ≡ load32 m a
unfolding save push_word
load32-save prev cpu m a lo hi off apart =
    let m1 = store32 m (u32 (cpu.sp + 2 ^ 32 - 4)) cpu.ebp in
    let s1 = u32 (cpu.sp + 2 ^ 32 - 4) in
    let m2 = store32 m1 (u32 (s1 + 2 ^ 32 - 4)) cpu.ebx in
    let s2 = u32 (s1 + 2 ^ 32 - 4) in
    let m3 = store32 m2 (u32 (s2 + 2 ^ 32 - 4)) cpu.esi in
    let s3 = u32 (s2 + 2 ^ 32 - 4) in
    let m4 = store32 m3 (u32 (s3 + 2 ^ 32 - 4)) cpu.edi in
    let s4 = u32 (s3 + 2 ^ 32 - 4) in
    load32-store32_ne m4 (prev + 4) s4 a (omega arith)
    ∙ load32-store32_ne m3 s4 cpu.edi a (omega arith)
    ∙ load32-store32_ne m2 s3 cpu.esi a (omega arith)
    ∙ load32-store32_ne m1 s2 cpu.ebx a (omega arith)
    ∙ load32-store32_ne m s1 cpu.ebp a (omega arith)

abbrev Kept : ℕ → ℕ → ℕ → Type 0
Kept sp prev p = OffStack sp p × ((p ≡ prev) ⊎ Apart prev p)

All-Kept :
    (sp prev : ℕ) (xs : List ℕ) → All (OffStack sp) xs → AllApart prev xs → All (Kept sp prev) xs
All-Kept sp prev [] h k = tt
All-Kept sp prev (x ∷ xs) h k = ((h.0, inr k.0), All-Kept sp prev xs h.1 k.1)

next-save :
    (prev : ℕ) (cpu : Cpu) (m : Memory) (p : ℕ)
    → 16 ≤ cpu.sp
    → cpu.sp < 2 ^ 32
    → Kept cpu.sp prev p
    → next (save (prev + 4) cpu m) p ≡ next m p
next-save prev cpu m p lo hi k = load32-save prev cpu m (p + 16) lo hi (omega arith) (omega arith)

IsRing-save :
    (cpu : Cpu) (m : Memory) (c x : ℕ) (xs : List ℕ)
    → 16 ≤ cpu.sp
    → cpu.sp < 2 ^ 32
    → IsRing m c (x ∷ xs)
    → All (OffStack cpu.sp) (c ∷ x ∷ xs)
    → IsRing (save (c + 4) cpu m) x (xs ++ c ∷ [])
IsRing-save cpu m c x xs lo hi ring off =
    let kept : All (Kept cpu.sp c) (c ∷ x ∷ xs) =
      ((off.0, inl refl), All-Kept cpu.sp c (x ∷ xs) off.1 ring.1.0) in
    let l : Linked (save (c + 4) cpu m) c (x ∷ xs) c =
      Linked-same m (save (c + 4) cpu m) (Kept cpu.sp c) c (x ∷ xs) c
        (λ p k. next-save c cpu m p lo hi k) kept ring.0 in
    (
      Linked-extend (save (c + 4) cpu m) x c x xs l.2 l.0 ring.1.1.0 (omega arith),
      IsSpread-append c (x ∷ xs) ring.1.1 ring.1.0,
    )

-- The switch saves the stack pointer of the process that it leaves.
esp-save :
    (prev : ℕ) (cpu : Cpu) (m : Memory)
    → 16 ≤ cpu.sp
    → cpu.sp < 2 ^ 32
    → esp (save (prev + 4) cpu m) prev ≡ cpu.sp - 16
esp-save prev cpu m lo hi =
    rw (save-frame (prev + 4) cpu m lo hi)
      (load32-store32_self (frame cpu m) (prev + 4) (cpu.sp - 16) ∙ omega arith)

All-esp_same :
    (cpu : Cpu) (m : Memory) (c : ℕ) (xs : List ℕ)
    → 16 ≤ cpu.sp
    → cpu.sp < 2 ^ 32
    → All (OffStack cpu.sp) xs
    → AllApart c xs
    → All (λ p. esp (save (c + 4) cpu m) p ≡ esp m p) xs
All-esp_same cpu m c [] lo hi off apart = tt
All-esp_same cpu m c (x ∷ xs) lo hi off apart = (
  load32-save c cpu m (x + 4) lo hi (omega (arith, off.0)) (omega (arith, apart.0)),
  All-esp_same cpu m c xs lo hi off.1 apart.1,
)

-- The switch to another process.
schedule-switch_task :
    (cpu : Cpu) (s : Processes) (x : ℕ)
    → next s.pmm.mem s.current_process ≡ x
    → s.current_process ≢ 0
    → x ≢ s.current_process
    → schedule cpu s ≡ (
      restore
          (esp s.pmm.mem x)
          (page_directory s.pmm.mem x)
          (save (s.current_process + 4) cpu s.pmm.mem),
      record s {
        pmm = with_mem (save (s.current_process + 4) cpu s.pmm.mem) s.pmm;
        gdt = tss_set_stack 0x10 (kernel_stack s.pmm.mem x) s.gdt;
        current_process = x;
      },
    )
unfolding schedule switch_task
schedule-switch_task cpu s x after ne other =
    let started : (s.current_process == 0) ≡ false = ground arith in
    let differ : (x == s.current_process) ≡ false = ground arith in rw (after, started, differ) refl

-- Where a process runs and the run queue is a ring of records that holds another one,
-- `process_schedule` makes the process behind the current one the current one, with its kernel stack
-- in the task state, and goes on with the registers that are popped from that process's saved stack
-- pointer and with its page directory; the stack pointer of the process before is saved in its
-- record, and those of the others stay. The run queue is a ring still, in which the process before
-- stands last. What the switch pushes must lie outside the records.
pub IsRing-schedule :
    (cpu : Cpu) (s : Processes) (x : ℕ) (xs : List ℕ)
    → 16 ≤ cpu.sp
    → cpu.sp < 2 ^ 32
    → s.current_process ≢ 0
    → IsRing s.pmm.mem s.current_process (x ∷ xs)
    → All (OffStack cpu.sp) (s.current_process ∷ x ∷ xs)
    → ((schedule cpu s).1.current_process ≡ x)
      × IsRing (schedule cpu s).1.pmm.mem x (xs ++ s.current_process ∷ [])
      × ((schedule cpu s).1.gdt.tss.esp0 ≡ kernel_stack s.pmm.mem x)
      × ((schedule cpu s).0
          ≡ restore (esp s.pmm.mem x) (page_directory s.pmm.mem x) (schedule cpu s).1.pmm.mem)
      × ((schedule cpu s).0.cr3 ≡ page_directory s.pmm.mem x)
      × ((schedule cpu s).0.sp ≡ u32 (esp s.pmm.mem x + 20))
      × (esp (schedule cpu s).1.pmm.mem s.current_process ≡ cpu.sp - 16)
      × All (λ p. esp (schedule cpu s).1.pmm.mem p ≡ esp s.pmm.mem p) (x ∷ xs)
unfolding tss_set_stack restore
IsRing-schedule cpu s x xs lo hi ne ring off =
    let m = s.pmm.mem in
    let c = s.current_process in
    subst
      (λ (r : Cpu × Processes).
        (r.1.current_process ≡ x)
        × IsRing r.1.pmm.mem x (xs ++ c ∷ [])
        × (r.1.gdt.tss.esp0 ≡ kernel_stack m x)
        × (r.0 ≡ restore (esp m x) (page_directory m x) r.1.pmm.mem)
        × (r.0.cr3 ≡ page_directory m x)
        × (r.0.sp ≡ u32 (esp m x + 20))
        × (esp r.1.pmm.mem c ≡ cpu.sp - 16)
        × All (λ p. esp r.1.pmm.mem p ≡ esp m p) (x ∷ xs))
      (sym (schedule-switch_task cpu s x ring.0.0 ne (omega arith)))
      (
        refl,
        IsRing-save cpu m c x xs lo hi ring off,
        refl,
        refl,
        refl,
        refl,
        esp-save c cpu m lo hi,
        All-esp_same cpu m c (x ∷ xs) lo hi off.1 ring.1.0,
      )
