-- ===== src/Pit/Execution.antt =====
-- Executions of the kernel with timer interrupts: what the running process does lies between them.
use mathlib.Core.Path.{subst}
use orbit_os.Base.{
  ℕ, zero, suc, ◌+◌, ◌-◌, ◌/◌, ◌%◌, ◌^◌, ◌≤◌, ◌<◌, ◌≡◌, ◌≢◌, ◌∙◌, refl, arith, sym, ap, inl, inr,
}
use orbit_os.Base.{List, [], ◌∷◌, ◌++◌, ◌==◌, u32, Bool-cases}
use orbit_os.Base.{rotate, All, All-rotate}
use orbit_os.Memory.{Memory}
use orbit_os.Process.{Processes, Cpu, next, esp, schedule}
use orbit_os.Process.Ring.{AllApart, IsRing}
use orbit_os.Process.Turns.{OffStack, Linked-same, IsRing-schedule}
use orbit_os.Pit.{Timer, callback, pit_callback}

-- The process that has the processor.
abbrev pub current : Timer → ℕ
current t = t.processes.current_process

abbrev pub memory : Timer → Memory
memory t = t.processes.pmm.mem

-- The stack of each process, from its lowest address to its highest.
abbrev pub Stacks : Type 0
Stacks = ℕ → ℕ × ℕ

-- The stack pointer is on the stack of `p`.
abbrev pub OnStack : Stacks → ℕ → ℕ → Type 0
OnStack stacks p sp = ((stacks p).0 ≤ sp) × (sp ≤ (stacks p).1)

-- The saved stack pointer of `p`, with the five words to pop, is on its stack.
abbrev pub IsParked : Stacks → Memory → ℕ → Type 0
IsParked stacks m p =
    ((stacks p).0 ≤ esp m p) × (esp m p + 20 ≤ (stacks p).1) × (esp m p + 20 < 2 ^ 32)

-- The running code leaves the timer, the choice of the process, the run queue and the saved stack
-- pointers alone, and stays on its stack. It may change its registers, its stack and the rest of
-- memory.
pub record IsWork (members : List ℕ) (stacks : Stacks) (s t : Timer) : Type 0 where
  pub tick_same : t.tick ≡ s.tick
  pub current_same : current t ≡ current s
  pub queue_same : All (λ p. next (memory t) p ≡ next (memory s) p) members
  pub saved_same : All (λ p. esp (memory t) p ≡ esp (memory s) p) members
  pub on_stack : OnStack stacks (current t) t.cpu.sp

-- The stack has room for the registers, beside the records of the processes, and holds the return
-- address.
pub record HasRoom (members : List ℕ) (stacks : Stacks) (t : Timer) : Type 0 where
  pub sp_lo : 16 ≤ t.cpu.sp
  pub sp_hi : t.cpu.sp + 4 < 2 ^ 32
  pub inside_lo : (stacks (current t)).0 + 16 ≤ t.cpu.sp
  pub inside_hi : t.cpu.sp + 4 ≤ (stacks (current t)).1
  pub off : All (OffStack t.cpu.sp) members

-- Work and timer interrupts in any order; the index counts the interrupts.
pub data Execution (members : List ℕ) (stacks : Stacks) (start : Timer) : ℕ → Timer → Type 0 where
  begin : Execution members stacks start zero start
  work :
      {n : ℕ} {s t : Timer}
      → Execution members stacks start n s
      → IsWork members stacks s t
      → Execution members stacks start n t
  interrupt :
      {n : ℕ} {s : Timer}
      → Execution members stacks start n s
      → HasRoom members stacks s
      → Execution members stacks start (suc n) (pit_callback s)

abbrev turn : List ℕ → List ℕ
turn [] = []
turn (x ∷ xs) = xs ++ x ∷ []

rotate-suc : (k : ℕ) (l : List ℕ) → rotate (suc k) l ≡ turn (rotate k l)
rotate-suc zero [] = refl
rotate-suc zero (x ∷ l) = refl
rotate-suc (suc k) [] = refl
rotate-suc (suc k) (x ∷ l) = rotate-suc k (l ++ x ∷ [])

-- A process alone in the queue goes on.
schedule_alone :
    (cpu : Cpu) (s : Processes)
    → next s.pmm.mem s.current_process ≡ s.current_process
    → schedule cpu s ≡ (cpu, s)
unfolding schedule
schedule_alone cpu s e = ground (arith, e)

-- What holds of every process holds along the turned queue.
pub All-turned :
    (P : ℕ → Type 0) (k : ℕ) (members l : List ℕ) → l ≡ rotate k members → All P members → All P l
All-turned P k members l e h = subst (All P) (sym e) (All-rotate P k members h)

-- After `k` turns the queue, from the running process `c` on, is the one from the start, turned.
abbrev pub IsTurned : List ℕ → ℕ → Memory → ℕ → Type 0
IsTurned members k m c = (rest : List ℕ) × (c ∷ rest ≡ rotate k members) × IsRing m c rest

IsTurned-same :
    (members : List ℕ) (k : ℕ) (m m' : Memory) (c : ℕ)
    → All (λ p. next m' p ≡ next m p) members
    → IsTurned members k m c
    → IsTurned members k m' c
IsTurned-same members k m m' c same (rest, e, ring) =
    let kept = All-turned (λ p. next m' p ≡ next m p) k members (c ∷ rest) e same in
    (
      rest,
      e,
      (Linked-same m m' (λ p. next m' p ≡ next m p) c rest c (λ p h. h) kept ring.0, ring.1),
    )

-- The processor is on the stack of the running process, and the other processes are parked on theirs.
abbrev pub IsSeated : List ℕ → Stacks → ℕ → Cpu → Memory → ℕ → Type 0
IsSeated members stacks k cpu m c =
    OnStack stacks c cpu.sp × All (λ p. (p ≢ c) → IsParked stacks m p) (rotate k members)

All-IsParked :
    (stacks : Stacks) (m m' : Memory) (c x : ℕ) (xs : List ℕ)
    → All (λ p. esp m' p ≡ esp m p) xs
    → All (λ p. p ≢ c → IsParked stacks m p) xs
    → AllApart c xs
    → All (λ p. p ≢ x → IsParked stacks m' p) xs
All-IsParked stacks m m' c x [] same h apart = tt
All-IsParked stacks m m' c x (p ∷ xs) same h apart = (
  λ ne. rw same.0 (h.0 (omega (arith, apart.0))),
  All-IsParked stacks m m' c x xs same.1 h.1 apart.1,
)

All-snoc : (P : ℕ → Type 0) (xs : List ℕ) (x : ℕ) → All P xs → P x → All P (xs ++ x ∷ [])
All-snoc P [] x h px = (px, tt)
All-snoc P (y ∷ xs) x h px = (h.0, All-snoc P xs x h.1 px)

All-IsParked_same :
    (stacks : Stacks) (m m' : Memory) (c : ℕ) (xs : List ℕ)
    → All (λ p. esp m' p ≡ esp m p) xs
    → All (λ p. p ≢ c → IsParked stacks m p) xs
    → All (λ p. p ≢ c → IsParked stacks m' p) xs
All-IsParked_same stacks m m' c [] same h = tt
All-IsParked_same stacks m m' c (p ∷ xs) same h =
    (λ ne. rw same.0 (h.0 ne), All-IsParked_same stacks m m' c xs same.1 h.1)

-- What holds for the turned queue from the running process on, and for the stacks.
abbrev pub IsSettled : List ℕ → Stacks → ℕ → Cpu → Processes → Type 0
IsSettled members stacks k cpu s =
    IsTurned members k s.pmm.mem s.current_process
    × IsSeated members stacks k cpu s.pmm.mem s.current_process

-- A call of the scheduler turns the queue once more, and the processor is on the next stack.
IsSettled-schedule :
    (members : List ℕ) (stacks : Stacks) (k : ℕ) (t : Timer)
    → HasRoom members stacks t
    → All (λ p. p ≢ 0) members
    → IsSettled members stacks k t.cpu t.processes
    → IsSettled members stacks (suc k) (schedule t.cpu t.processes).0 (schedule t.cpu t.processes).1
IsSettled-schedule members stacks k t room real (([], e, ring), (on, parked)) =
    let same : schedule t.cpu t.processes ≡ (t.cpu, t.processes) =
      schedule_alone t.cpu t.processes ring.0 in
    let queue = ap turn e ∙ sym (rotate-suc k members) in
    let here = subst (All (λ p. p ≢ current t → IsParked stacks (memory t) p)) (sym e) parked in
    rw same (
      ([], queue, ring),
      (on, subst (All (λ p. p ≢ current t → IsParked stacks (memory t) p)) queue here),
    )
IsSettled-schedule members stacks k t room real ((x ∷ xs, e, ring), (on, parked)) =
    let s = t.processes in
    let m = memory t in
    let c = current t in
    let off = All-turned (OffStack t.cpu.sp) k members (c ∷ x ∷ xs) e room.off in
    let ne = All-turned (λ p. p ≢ 0) k members (c ∷ x ∷ xs) e real in
    let (now, turned, _, _, _, sp_now, saved, same) =
      IsRing-schedule t.cpu s x xs room.sp_lo (omega (arith, room.sp_hi)) ne.0 ring off in
    let m' = (schedule t.cpu s).1.pmm.mem in
    let queue : x ∷ (xs ++ c ∷ []) ≡ rotate (suc k) members =
      ap turn e ∙ sym (rotate-suc k members) in
    let before = subst (All (λ p. p ≢ c → IsParked stacks m p)) (sym e) parked in
    let next_parked : IsParked stacks m x = before.1.0 (omega (arith, ring.1.0.0)) in
    let others = All-IsParked stacks m m' c x xs same.1 before.1.1 ring.1.0.1 in
    let old_parked : IsParked stacks m' c = rw saved (
      omega (arith, room.inside_lo),
      omega (arith, room.inside_hi, room.sp_lo),
      omega (arith, room.sp_hi, room.sp_lo),
    ) in
    rw now (
      (xs ++ c ∷ [], queue, turned),
      (
        rw sp_now (omega (arith, next_parked), omega (arith, next_parked)),
        subst (All (λ p. p ≢ x → IsParked stacks m' p)) queue (
          (λ ne. absurd (ne refl)),
          All-snoc (λ p. p ≢ x → IsParked stacks m' p) xs c others (λ _. old_parked),
        ),
      ),
    )

-- The number of turns in `n` interrupts from a tick on.
abbrev pub turns : ℕ → ℕ → ℕ
turns tick n = (tick + n) / 50 - tick / 50

-- One interrupt: the count goes up, and at each multiple of 50 the queue is turned.
IsSettled-callback :
    (members : List ℕ) (stacks : Stacks) (tick n : ℕ) (t : Timer)
    → HasRoom members stacks t
    → All (λ p. p ≢ 0) members
    → t.tick ≡ tick + n
    → tick + suc n < 2 ^ 32
    → IsSettled members stacks (turns tick n) t.cpu t.processes
    → ((pit_callback t).tick ≡ tick + suc n)
      × IsSettled members stacks
          (turns tick (suc n))
          (pit_callback t).cpu
          (pit_callback t).processes
unfolding pit_callback callback
IsSettled-callback members stacks tick n t room real e small settled =
    let count : u32 (t.tick + 1) ≡ tick + suc n = omega arith in
    elim (Bool-cases ((tick + suc n) % 50 == 0)) [
      | inl now ↦
          let more : turns tick (suc n) ≡ suc (turns tick n) = ground arith in
          rw (count, now, more)
            (refl, IsSettled-schedule members stacks (turns tick n) t room real settled)
      | inr later ↦
          let as_many : turns tick (suc n) ≡ turns tick n = ground arith in
          rw (count, later, as_many) (refl, settled)
    ]

-- Work leaves the queue and the parked processes as they are.
IsSettled-work :
    (members : List ℕ) (stacks : Stacks) (k : ℕ) (s t : Timer)
    → IsWork members stacks s t
    → IsSettled members stacks k s.cpu s.processes
    → IsSettled members stacks k t.cpu t.processes
IsSettled-work members stacks k s t w (turned, (on, parked)) = (
  rw w.current_same (IsTurned-same members k (memory s) (memory t) (current s) w.queue_same turned),
  (
    w.on_stack,
    rw w.current_same (
        All-IsParked_same stacks (memory s) (memory t) (current s) (rotate k members)
          (All-rotate (λ p. esp (memory t) p ≡ esp (memory s) p) k members w.saved_same) parked),
  ),
)

Execution-IsSettled :
    (members : List ℕ) (stacks : Stacks) (start : Timer) (n : ℕ) (t : Timer)
    → All (λ p. p ≢ 0) members
    → IsSettled members stacks 0 start.cpu start.processes
    → Execution members stacks start n t
    → start.tick + n < 2 ^ 32
    → (t.tick ≡ start.tick + n) × IsSettled members stacks (turns start.tick n) t.cpu t.processes
Execution-IsSettled members stacks start zero t real settled begin small =
    let none_yet : turns start.tick 0 ≡ 0 = omega arith in rw none_yet (omega arith, settled)
Execution-IsSettled members stacks start n t real settled (work {s = s} e w) small =
    let (count, before) = Execution-IsSettled members stacks start n s real settled e small in
    (w.tick_same ∙ count, IsSettled-work members stacks (turns start.tick n) s t w before)
Execution-IsSettled members stacks start (suc n) t real settled (interrupt {s = s} e room) small =
    let (count, before) =
      Execution-IsSettled members stacks start n s real settled e (omega arith) in
    IsSettled-callback members stacks start.tick n s room real count small before

-- In every execution that starts with a ring of processes, the processor on the stack of the first
-- and the others parked on theirs, whatever the processes do between the interrupts: after `n`
-- interrupts the queue from the running process on is the first one, turned once for every multiple
-- of 50 that the count of interrupts has passed, and it is a ring still; and the stack pointer of the
-- processor is on the stack of the process whose turn it is. The count must not wrap.
pub Execution-IsTurned :
    (members : List ℕ) (stacks : Stacks) (start : Timer) (n : ℕ) (t : Timer)
    → All (λ p. p ≢ 0) members
    → IsSettled members stacks 0 start.cpu start.processes
    → Execution members stacks start n t
    → start.tick + n < 2 ^ 32
    → (t.tick ≡ start.tick + n)
      × IsTurned members (turns start.tick n) (memory t) (current t)
      × OnStack stacks (current t) t.cpu.sp
Execution-IsTurned members stacks start n t real settled e small =
    let (count, (turned, (on, _))) =
      Execution-IsSettled members stacks start n t real settled e small in
    (count, turned, on)
