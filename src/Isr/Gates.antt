-- ===== src/Isr/Gates.antt =====
-- The gates after the start, and the dispatch.
use native.Mathlib.Decide.{ℕ_discrete}
use orbit_os.Base.{ℕ, zero, suc, ◌+◌, ◌-◌, ◌/◌, ◌%◌, ◌^◌, ◌≤◌, ◌<◌, ◌≡◌, ◌↔◌, refl, arith, ◌∙◌, ap}
use orbit_os.Base.{Bool-cases, inl, inr, ◌==◌, ltb, leb, ◌&&◌, if◌then◌else◌, u8}
use orbit_os.Idt.{Idt, IdtEntry, gate, set_gate, absent}
use orbit_os.Idt
use orbit_os.Isr.{Stubs, set_gates, install, Handlers, register_interrupt_handler, irq_handler}

entries-set_gate :
    (num base sel flags : ℕ) (t : Idt) (n : ℕ)
    → (set_gate num base sel flags t).entries n
      ≡ (if u8 num == n then gate base sel flags else t.entries n)
unfolding set_gate
entries-set_gate num base sel flags t n = refl

entries-set_gates :
    (left first i : ℕ) (stub : ℕ → ℕ) (t : Idt) (n : ℕ)
    → first + i + left ≤ 256
    → (set_gates left first i stub t).entries n ≡ (
        if leb (first + i) n && ltb n (first + i + left)
        then gate (stub (n - first)) 0x08 0x8E
        else t.entries n)
unfolding set_gates
entries-set_gates zero first i stub t n fits = ground arith
entries-set_gates (suc left) first i stub t n fits =
    let t' = set_gate (first + i) (stub i) 0x08 0x8E t in
    entries-set_gates left first (i + 1) stub t' n (omega arith)
    ∙ rw (entries-set_gate (first + i) (stub i) 0x08 0x8E t n) (elim (ℕ_discrete (first + i) n) [
      | yes e ↦ let index : n - first ≡ i = omega arith in rw index (ground arith)
      | no ne ↦ ground arith
    ])

-- After `isr_initialize` gates 0 to 31 lead to the exception stubs and 32 to 47 to the interrupt
-- stubs, at privilege level 0; gate 128 leads to the system call stub at level 3; the others are
-- as before.
pub entries-install :
    (stubs : Stubs) (t : Idt) (n : ℕ)
    → (install stubs t).entries n ≡ (
        if n == 128
        then gate stubs.isr128 0x08 0xEE
        else if ltb n 32
        then gate (stubs.isr n) 0x08 0x8E
        else if ltb n 48
        then gate (stubs.irq (n - 32)) 0x08 0x8E
        else t.entries n)
unfolding install
entries-install stubs t n =
    let exceptions = set_gates 32 0 0 stubs.isr t in
    let interrupts = set_gates 16 32 0 stubs.irq exceptions in
    entries-set_gate 128 stubs.isr128 0x08 0xEE interrupts n
    ∙ rw
        (
          entries-set_gates 16 32 0 stubs.irq exceptions n (omega arith),
          entries-set_gates 32 0 0 stubs.isr t n (omega arith),
        )
        (ground arith)

-- A gate is present, and code at privilege level 3 may call it.
abbrev pub UserCallable : IdtEntry → Type 0
UserCallable e = (e.flags / 128 ≡ 1) × (e.flags / 32 % 4 ≡ 3)

-- Once the table is cleared and filled, the system call is the one gate that user code may call.
pub UserCallable-install :
    (stubs : Stubs) (entries_address : ℕ) (t : Idt) (n : ℕ)
    → n < 256
    → UserCallable ((install stubs (Idt.initialize entries_address t)).entries n) ↔ (n ≡ 128)
UserCallable-install stubs entries_address t n h =
    rw (entries-install stubs (Idt.initialize entries_address t) n)
      (unfold Idt.initialize gate in (grind arith, grind arith))

-- On a hardware interrupt a registered handler runs after the end of the interrupt is sent, and for its
-- own interrupt only.
pub irq_handler-register :
    {S : Type 0} (eoi : ℕ → S → S) (n : ℕ) (f : S → S) (handlers : Handlers S) (int_no : ℕ) (s : S)
    → 32 ≤ int_no
    → int_no < 256
    → irq_handler eoi (register_interrupt_handler n f handlers) int_no s
      ≡ (if u8 n == int_no then f (eoi (int_no - 32) s) else irq_handler eoi handlers int_no s)
unfolding irq_handler register_interrupt_handler
irq_handler-register eoi n f handlers int_no s lo hi =
    let irq : u8 (int_no + 2 ^ 32 - 32) ≡ int_no - 32 = omega arith in
    elim (Bool-cases (u8 n == int_no)) [
      | inl e ↦ rw (e, irq_handler, register_interrupt_handler) (ap (λ k. f (eoi k s)) irq)
      | inr e ↦ rw (e, irq_handler, register_interrupt_handler)
    ]
