-- ===== src/Syscall.antt =====
-- kernel/syscall.c: the handler of interrupt 0x80, on the registers that the stub has pushed.
use orbit_os.Base.{ℕ, ◌-◌, ◌^◌, ◌<◌, ◌≡◌, ◌≢◌, ◌⊎◌, refl, arith, Option, some, ◌>>=◌}
use orbit_os.Base.{◌==◌, ◌||◌, if◌then◌else◌, true, false, List, length, codes}
use orbit_os.Memory.{Memory}
use orbit_os.Strings.{IsString}
use orbit_os.Terminal.{Terminal, puts, writestring}
use orbit_os.Terminal.Text.{writestring-puts}
use orbit_os.Isr.{Handlers, register_interrupt_handler}

-- `registers_t`
pub record Registers : Type 0 where
  pub ds : ℕ
  pub edi : ℕ
  pub esi : ℕ
  pub ebp : ℕ
  pub esp : ℕ
  pub ebx : ℕ
  pub edx : ℕ
  pub ecx : ℕ
  pub eax : ℕ
  pub int_no : ℕ
  pub err_code : ℕ
  pub eip : ℕ
  pub cs : ℕ
  pub eflags : ℕ
  pub useresp : ℕ
  pub ss : ℕ

abbrev pub sys_write_number : ℕ
sys_write_number = 4

-- The string is printed up to its end, which takes fuel.
unfoldable pub sys_write : ℕ → Memory → Registers → Terminal → Option (Registers × Terminal)
sys_write fuel m regs t =
    if (regs.ebx == 1) || (regs.ebx == 2)
    then (do t' ← writestring fuel m regs.ecx t; some (record regs { eax = regs.edx }, t'))
    else some (record regs { eax = 2 ^ 32 - 1 }, t)

unfoldable pub syscall_handler : ℕ → Memory → Registers → Terminal → Option (Registers × Terminal)
unfolding sys_write
syscall_handler fuel m regs t =
    if regs.eax == sys_write_number
    then sys_write fuel m regs t
    else some (regs, puts (codes "Unknown syscall: ") t)

-- The registration for interrupt 128, on a handler on the state `S` of the kernel.
unfoldable pub initialize : {S : Type 0} → (S → S) → Handlers S → Handlers S
initialize handler handlers = register_interrupt_handler 128 handler handlers

-- A system call with a string in memory that the fuel covers ends. A write to descriptor 1 or 2
-- prints the whole string, whatever length is passed, and returns that length; a write to another
-- descriptor prints nothing and returns -1; any other number prints a message. No other register
-- changes.
pub syscall_handler_cases :
    (fuel : ℕ) (m : Memory) (regs : Registers) (s : List ℕ) (t : Terminal)
    → IsString m regs.ecx s
    → length s < fuel
    → ((regs.eax ≡ 4)
        → ((regs.ebx ≡ 1) ⊎ (regs.ebx ≡ 2))
        → syscall_handler fuel m regs t ≡ some (record regs { eax = regs.edx }, puts s t))
      × ((regs.eax ≡ 4)
          → regs.ebx ≢ 1
          → regs.ebx ≢ 2
          → syscall_handler fuel m regs t ≡ some (record regs { eax = 2 ^ 32 - 1 }, t))
      × (regs.eax ≢ 4
          → syscall_handler fuel m regs t ≡ some (regs, puts (codes "Unknown syscall: ") t))
unfolding syscall_handler
syscall_handler_cases fuel m regs s t there enough = (
  λ call out.
      let is_write : (regs.eax == 4) ≡ true = ground arith in
      let is_out : ((regs.ebx == 1) || (regs.ebx == 2)) ≡ true = ground arith in
      rw (is_write, is_out, writestring-puts m regs.ecx fuel s t there enough) refl,
  λ call not_out not_err.
      let is_write : (regs.eax == 4) ≡ true = ground arith in
      let is_out : ((regs.ebx == 1) || (regs.ebx == 2)) ≡ false = ground arith in
      rw (is_write, is_out) refl,
  λ other. let is_write : (regs.eax == 4) ≡ false = ground arith in rw is_write refl,
)
