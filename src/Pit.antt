-- ===== src/Pit.antt =====
-- drivers/pit.c: the timer. `pit_callback` counts, and calls the scheduler at every 50th tick.
pub mod Execution
pub mod Fairness
use orbit_os.Base.{
  ℕ, zero, suc, ◌+◌, ◌-◌, ◌*◌, ◌/◌, ◌%◌, ◌^◌, ◌≤◌, ◌<◌, ◌≡◌, refl, arith, List, [], ◌∷◌, ◌++◌,
  codes,
}
use orbit_os.Base.{Bool, ◌==◌, if◌then◌else◌, u8, u32, bit_and, ◌>>◌}
use orbit_os.Process.{Cpu, Processes, schedule}
use orbit_os.Isr.{Handlers, register_interrupt_handler}
use orbit_os.Terminal.{Terminal, puts}
use orbit_os.Bits.{bit_and-mask}

-- The new count, and whether `process_schedule` is called.
unfoldable pub callback : ℕ → ℕ × Bool
callback tick = (u32 (tick + 1), u32 (tick + 1) % 50 == 0)

-- The state that the timer's interrupt works on.
pub record Timer : Type 0 where
  pub tick : ℕ
  pub cpu : Cpu
  pub processes : Processes

-- `pit_callback`, the call of `process_schedule` included.
unfoldable pub pit_callback : Timer → Timer
unfolding callback
pit_callback t =
    let (tick, called) = callback t.tick in
    let (cpu, processes) = schedule t.cpu t.processes in
    if called
    then record { tick = tick; cpu = cpu; processes = processes }
    else record t { tick = tick }

-- How often `n` timer interrupts call the scheduler.
unfoldable pub schedules : ℕ → ℕ → ℕ
schedules zero tick = 0
schedules (suc n) tick =
    let (tick', called) = callback tick in (if called then 1 else 0) + schedules n tick'

-- The bytes that set the frequency, in the order of sending.
unfoldable pub initialize_ports : ℕ → List (ℕ × ℕ)
initialize_ports frequency =
    let divisor = 1193180 / frequency in
    (0x43, 0x36) ∷ (0x40, u8 (bit_and divisor 0xFF)) ∷ (0x40, u8 (bit_and (divisor >> 8) 0xFF)) ∷ []

-- `pit_initialize`: the handler of interrupt 32, the bytes sent, the message.
unfoldable pub initialize :
    {S : Type 0}
    → (S → S)
    → ℕ
    → Handlers S
    → List (ℕ × ℕ)
    → Terminal
    → Handlers S × List (ℕ × ℕ) × Terminal
initialize handler frequency handlers sent t = (
  register_interrupt_handler 32 handler handlers,
  sent ++ initialize_ports frequency,
  puts (codes "PIT initialized.\n") t,
)

unfoldable pub get_ticks : Timer → ℕ
get_ticks t = t.tick

-- Until the count of ticks wraps, the scheduler is called once for every multiple of 50 that it passes.
pub schedules_lem :
    (n tick : ℕ) → tick + n < 2 ^ 32 → schedules n tick ≡ (tick + n) / 50 - tick / 50
unfolding schedules callback
schedules_lem zero tick h = omega arith
schedules_lem (suc n) tick h =
    let next : u32 (tick + 1) ≡ tick + 1 = omega arith in
    rw next (ground (arith, schedules_lem n (tick + 1) (omega arith)))

divisor_small : (frequency : ℕ) → 19 ≤ frequency → 1193180 / frequency < 2 ^ 16
divisor_small frequency h = grind arith

-- From 19 Hz on the two bytes sent make up the divisor, so no part of it is lost.
pub initialize_ports-divisor :
    (frequency : ℕ)
    → 19 ≤ frequency
    → (lo hi : ℕ) × (initialize_ports frequency ≡ (0x43, 0x36) ∷ (0x40, lo) ∷ (0x40, hi) ∷ [])
      × (hi * 256 + lo ≡ 1193180 / frequency)
unfolding initialize_ports
initialize_ports-divisor frequency h =
    let d = 1193180 / frequency in
    let small : d < 2 ^ 16 = divisor_small frequency h in
    (
      u8 (bit_and d 0xFF),
      u8 (bit_and (d >> 8) 0xFF),
      refl,
      omega (arith, bit_and-mask 8 d, bit_and-mask 8 (d / 256), small),
    )
