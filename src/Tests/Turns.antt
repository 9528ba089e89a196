-- ===== src/Tests/Turns.antt =====
-- Two processes and the timer.
use orbit_os.Base.{ℕ, zero, suc, ◌+◌, ◌%◌, ◌≤◌, ◌≡◌, refl, arith, inl, List, [], ◌∷◌, All}
use mathlib.Core.Path.{subst}
use orbit_os.Base.{u32, ◌==◌, false, if◌then◌else◌}
use orbit_os.Memory.{Memory, load8, store8, load32, store32}
use orbit_os.Process.{Processes}
use orbit_os.Pit.{Timer, callback, pit_callback}
use orbit_os.Pit.Execution.{
  Execution, Stacks, OnStack, IsSettled, HasRoom, IsTurned, turns, memory, current, interrupt,
  begin, Execution-IsTurned,
}
use orbit_os.Pit.Fairness.{HasRun, All-HasRun}
use orbit_os.Tests.Threads.{running, cpu}

abbrev pair : Memory
pair = store32 (store32 (store32 (λ a. 0) 0x1010 0x2000) 0x2010 0x1000) 0x2004 0x3F00

abbrev stacks : Stacks
stacks p = if p == 0x1000 then (0x7000, 0x8000) else (0x3000, 0x4000)

abbrev members : List ℕ
members = 0x1000 ∷ 0x2000 ∷ []

abbrev two : Processes
two = record running { pmm = record (running.pmm) { mem = pair } }

abbrev pub at : Processes → ℕ → Timer
at s n = record { tick = n; cpu = cpu; processes = s }

two-IsSettled : IsSettled members stacks 0 cpu two
unfolding load8 store8 load32 store32
two-IsSettled = (
  (0x2000 ∷ [], refl, ((refl, omega arith, refl), ((inl (omega arith), tt), (tt, tt)))),
  (
    (omega arith, omega arith),
    ((λ ne. absurd (ne refl)), ((λ ne. (omega arith, omega arith, omega arith)), tt)),
  ),
)

-- No turn before the 50th interrupt.
quiet_step : (s : Processes) (n : ℕ) → suc n ≤ 49 → pit_callback (at s n) ≡ at s (suc n)
unfolding pit_callback callback
quiet_step s n h =
    let count : u32 (n + 1) ≡ suc n = omega arith in
    let not_yet : (suc n % 50 == 0) ≡ false = ground arith in rw (count, not_yet) refl

module _ (queue : List ℕ) (stacks : Stacks) (s : Processes)
    (room : (n : ℕ) → HasRoom queue stacks (at s n)) where
  quiet : (n : ℕ) → n ≤ 49 → Execution queue stacks (at s 0) n (at s n)
  quiet zero h = begin
  quiet (suc n) h =
      subst (Execution queue stacks (at s 0) (suc n)) (quiet_step s n h)
        (interrupt (quiet n (omega arith)) (room n))

  pub fifty : Execution queue stacks (at s 0) 50 (pit_callback (at s 49))
  fifty = interrupt (quiet 49 (omega arith)) (room 49)

two-HasRoom : (n : ℕ) → HasRoom members stacks (at two n)
two-HasRoom n = record {
  sp_lo = omega arith;
  sp_hi = omega arith;
  inside_lo = omega arith;
  inside_hi = omega arith;
  off = (inl (omega arith), (inl (omega arith), tt));
}

Execution-IsTurned_example :
    ((pit_callback (at two 49)).tick ≡ 0 + 50)
    × IsTurned members
        (turns 0 50)
        (memory (pit_callback (at two 49)))
        (current (pit_callback (at two 49)))
    × OnStack stacks (current (pit_callback (at two 49))) (pit_callback (at two 49)).cpu.sp
Execution-IsTurned_example =
    Execution-IsTurned members stacks (at two 0) 50 (pit_callback (at two 49))
      (omega arith, (omega arith, tt)) two-IsSettled (fifty members stacks two two-HasRoom)
      (omega arith)

All-HasRun_example : All (λ p. HasRun p (fifty members stacks two two-HasRoom)) members
All-HasRun_example =
    All-HasRun members stacks (at two 0) (omega arith, (omega arith, tt)) two-IsSettled 50
      (pit_callback (at two 49)) (fifty members stacks two two-HasRoom) (omega arith) (omega arith)
