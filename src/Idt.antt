-- ===== src/Idt.antt =====
-- kernel/idt.c: the interrupt descriptor table.
use orbit_os.Base.{ℕ, ◌-◌, ◌*◌, ◌==◌, ltb, if◌then◌else◌, bit_and, u8, u16, ◌>>◌}

-- `struct idt_entry`
pub record IdtEntry : Type 0 where
  pub base_low : ℕ
  pub sel : ℕ
  pub always0 : ℕ
  pub flags : ℕ
  pub base_high : ℕ

pub record Idt : Type 0 where
  pub entries : ℕ → IdtEntry
  pub ptr_limit : ℕ
  pub ptr_base : ℕ

unfoldable pub gate : ℕ → ℕ → ℕ → IdtEntry
gate base sel flags = record {
  base_low = bit_and base 0xFFFF;
  sel = u16 sel;
  always0 = 0;
  flags = u8 flags;
  base_high = bit_and (base >> 16) 0xFFFF;
}

unfoldable pub set_gate : ℕ → ℕ → ℕ → ℕ → Idt → Idt
set_gate num base sel flags t = record t {
  entries = λ i. if u8 num == i then gate base sel flags else t.entries i;
}

abbrev pub absent : IdtEntry
absent = record { base_low = 0; sel = 0; always0 = 0; flags = 0; base_high = 0 }

-- `idt_memset` clears the 256 entries; the address of the table is an argument.
unfoldable pub initialize : ℕ → Idt → Idt
initialize entries_address t = record {
  entries = λ i. if ltb i 256 then absent else t.entries i;
  ptr_limit = 8 * 256 - 1;
  ptr_base = entries_address;
}
