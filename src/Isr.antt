-- ===== src/Isr.antt =====
-- kernel/isr.c: the gates of the interrupt stubs and the dispatch to registered handlers. The
-- addresses of the assembly stubs are arguments; a handler is a function on the state `S` of the
-- rest of the kernel, and the terminal message and the end of interrupt are functions on it too.
pub mod Gates
use orbit_os.Base.{
  ltb, ℕ, zero, suc, ◌+◌, ◌-◌, ◌%◌, ◌^◌, Option, none, some, ◌==◌, if◌then◌else◌, u8,
}
use orbit_os.Idt.{Idt, set_gate}
use orbit_os.Pic.{Log, remap}

-- The interrupt stubs of kernel/interrupts.s.
pub record Stubs : Type 0 where
  pub isr : ℕ → ℕ
  pub irq : ℕ → ℕ
  pub isr128 : ℕ

-- `idt_set_gate(first, stub(0), …); idt_set_gate(first + 1, stub(1), …); …`, `left` times.
unfoldable pub set_gates : ℕ → ℕ → ℕ → (ℕ → ℕ) → Idt → Idt
set_gates zero first i stub t = t
set_gates (suc left) first i stub t =
    set_gates left first (i + 1) stub (set_gate (first + i) (stub i) 0x08 0x8E t)

unfoldable pub install : Stubs → Idt → Idt
install stubs t =
    set_gate 128 stubs.isr128 0x08 0xEE (set_gates 16 32 0 stubs.irq (set_gates 32 0 0 stubs.isr t))

-- `isr_t interrupt_handlers[256]`
abbrev pub Handlers : Type 0 → Type 0
Handlers S = ℕ → Option (S → S)

module _ {S : Type 0} where
  -- `isr_initialize`: the gates, the bytes sent to the interrupt controllers, the cleared table.
  unfoldable pub initialize : Stubs → ℕ → ℕ → Idt → Log → Handlers S → Idt × Log × Handlers S
  initialize stubs a1 a2 t log handlers =
      (install stubs t, remap 0x20 0x28 a1 a2 log, λ n. if ltb n 256 then none else handlers n)

  unfoldable pub register_interrupt_handler : ℕ → (S → S) → Handlers S → Handlers S
  register_interrupt_handler n handler handlers i = if u8 n == i then some handler else handlers i

  -- `isr_handler`; `report` writes "Unhandled CPU Exception!".
  unfoldable pub isr_handler : (S → S) → Handlers S → ℕ → S → S
  isr_handler report handlers int_no s = elim (handlers int_no) [
    | some handler ↦ handler s
    | none ↦ report s
  ]

  -- `irq_handler`; `send_eoi` is `pic_send_eoi`, on a byte.
  unfoldable pub irq_handler : (ℕ → S → S) → Handlers S → ℕ → S → S
  irq_handler send_eoi handlers int_no s =
      let s' = send_eoi (u8 (int_no + 2 ^ 32 - 32)) s in
      elim (handlers int_no) [ some handler ↦ handler s' | none ↦ s' ]
