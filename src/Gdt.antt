-- ===== src/Gdt.antt =====
-- kernel/gdt.c: the segment descriptors and the task state segment. The addresses of the two
-- static objects, which the linker places, are arguments.
pub mod Encoding
use orbit_os.Base.{ℕ, ◌+◌, ◌-◌, ◌*◌, ◌^◌, ◌==◌, if◌then◌else◌, bit_and, bit_or, u8, u16, ◌>>◌}

-- `struct gdt_entry`
pub record GdtEntry : Type 0 where
  pub limit_low : ℕ
  pub base_low : ℕ
  pub base_middle : ℕ
  pub access : ℕ
  pub granularity : ℕ
  pub base_high : ℕ

-- `struct tss_entry`: the fields that the kernel sets. `memset` leaves the others at zero, and
-- nothing writes to them.
pub record Tss : Type 0 where
  pub ss0 : ℕ
  pub esp0 : ℕ
  pub cs : ℕ
  pub ss : ℕ
  pub ds : ℕ
  pub es : ℕ
  pub fs : ℕ
  pub gs : ℕ
  pub iomap_base : ℕ

pub record Gdt : Type 0 where
  pub entries : ℕ → GdtEntry
  pub ptr_limit : ℕ
  pub ptr_base : ℕ
  pub tss : Tss

-- `sizeof(struct gdt_entry)` and `sizeof(struct tss_entry)`, which are packed.
abbrev pub entry_bytes : ℕ
entry_bytes = 8

abbrev pub tss_bytes : ℕ
tss_bytes = 104

-- What `gdt_set_gate` stores: the granularity in two steps, each cut to a byte.
unfoldable pub gate : ℕ → ℕ → ℕ → ℕ → GdtEntry
gate base limit access gran = record {
  limit_low = u16 (bit_and limit 0xFFFF);
  base_low = u16 (bit_and base 0xFFFF);
  base_middle = u8 (bit_and (base >> 16) 0xFF);
  access = u8 access;
  granularity = u8 (bit_or (u8 (bit_and (limit >> 16) 0x0F)) (bit_and gran 0xF0));
  base_high = u8 (bit_and (base >> 24) 0xFF);
}

unfoldable pub set_gate : ℕ → ℕ → ℕ → ℕ → ℕ → Gdt → Gdt
set_gate num base limit access gran g = record g {
  entries = λ i. if num == i then gate base limit access gran else g.entries i;
}

unfoldable pub tss_write : ℕ → ℕ → ℕ → ℕ → Gdt → Gdt
tss_write tss_address num ss0 esp0 g = record (set_gate num tss_address tss_bytes 0xE9 0x00 g) {
  tss = record {
    ss0 = ss0;
    esp0 = esp0;
    cs = 0x0B;
    ss = 0x13;
    ds = 0x13;
    es = 0x13;
    fs = 0x13;
    gs = 0x13;
    iomap_base = tss_bytes;
  };
}

unfoldable pub tss_set_stack : ℕ → ℕ → Gdt → Gdt
tss_set_stack kernel_ss kernel_esp g = record g {
  tss = record (g.tss) { ss0 = kernel_ss; esp0 = kernel_esp };
}

unfoldable pub initialize : ℕ → ℕ → Gdt → Gdt
initialize entries_address tss_address g =
    let start = record g { ptr_limit = entry_bytes * 6 - 1; ptr_base = entries_address } in
    let null_segment = set_gate 0 0 0 0 0 start in
    let kernel_code = set_gate 1 0 0xFFFFFFFF 0x9A 0xCF null_segment in
    let kernel_data = set_gate 2 0 0xFFFFFFFF 0x92 0xCF kernel_code in
    let user_code = set_gate 3 0 0xFFFFFFFF 0xFA 0xCF kernel_data in
    let user_data = set_gate 4 0 0xFFFFFFFF 0xF2 0xCF user_code in
    tss_write tss_address 5 0x10 0 user_data
