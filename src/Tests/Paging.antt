-- ===== src/Tests/Paging.antt =====
-- The virtual memory manager on a machine of eight blocks, of which block 3 is free.
use orbit_os.Base.{ℕ, ◌+◌, ◌*◌, ◌<◌, ◌≡◌, ◌∙◌, refl, arith, inl}
use orbit_os.Bits.{bit}
use orbit_os.Memory.{load8, store8, load32, store32, word, load8-store32_ne}
use orbit_os.Pmm.{Pmm}
use orbit_os.Pmm.Bitmap.{usage}
use orbit_os.Vmm.{Vmm}
use orbit_os.Vmm.Walk.{IsPresent}
use orbit_os.Vmm.Paged.{IsPaged}
use orbit_os.Vmm.Table.{load32_of_zeros}

abbrev blocks : Pmm
blocks = record {
  mem = store32 (λ a. 0) 0x100000 0xF7;
  bitmap = 0x100000;
  max_blocks = 8;
  used_blocks = 7;
}

-- The directory in block 1, empty.
abbrev pub paged : Vmm
paged = record { pmm = blocks; page_directory = 0x1000 }

block_used : usage blocks 0 ≡ 1
unfolding usage word load32 load8 store32 store8 bit
block_used = refl

directory_used : usage blocks 1 ≡ 1
unfolding usage word load32 load8 store32 store8 bit
directory_used = refl

entry_empty : (i : ℕ) → i < 1024 → word blocks.mem 0x1000 i ≡ 0
unfolding word
entry_empty i h =
    load32_of_zeros blocks.mem (0x1000 + 4 * i)
      (λ c ge lt. load8-store32_ne (λ a. 0) 0x100000 0xF7 c (omega arith) ∙ unfold load8 in refl)

none-IsPresent : (i : ℕ) → ¬ IsPresent blocks.mem 0x1000 i
none-IsPresent i (lt, on) = omega (arith, entry_empty i lt)

pub paged-IsPaged : IsPaged paged
paged-IsPaged = record {
  tables = record {
    aligned = refl;
    not_pd = λ i on. absurd (none-IsPresent i on);
    not_shared = λ i j on on' ne. absurd (none-IsPresent i on);
  };
  blocks_fit = omega arith;
  zero_used = block_used;
  pd_off = inl (omega arith);
  tables_off = λ i on. absurd (none-IsPresent i on);
  free_off = λ b lt free. inl (omega arith);
  free_not_pd = λ b lt free e.
      let one : b ≡ 1 = omega arith in absurd (omega (arith, directory_used, rw one at free));
  free_not_table = λ b i lt free on e. absurd (none-IsPresent i on);
}
