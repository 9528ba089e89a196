-- ===== src/Pmm.antt =====
-- memory/pmm.c, the physical memory manager: a bitmap in physical memory, one bit to a 4 KB block,
-- set where the block is in use. The static variables are the fields of a record beside the
-- memory that holds the bitmap.
pub mod Bitmap
pub mod Count
pub mod Alloc
pub mod Laws
pub mod Region
pub mod Ready
pub mod Fresh
pub mod Walk
pub mod Reserved
pub mod Init
use orbit_os.Base.{ℕ, zero, suc, ◌+◌, ◌-◌, ◌*◌, ◌/◌, ◌%◌, ◌^◌, bit_and, bit_or, Option, none, some}
use orbit_os.Base.{Bool, ◌&&◌, not, ◌==◌, ltb, leb, if◌then◌else◌, u32, ◌<<◌, complement}
use orbit_os.Memory.{Memory, word, set_word}
use orbit_os.Strings.{memset}
use orbit_os.Multiboot
use orbit_os.Base.{◌>>=◌}

pub record Pmm : Type 0 where
  pub mem : Memory
  pub bitmap : ℕ
  pub max_blocks : ℕ
  pub used_blocks : ℕ

abbrev pub block_size : ℕ
block_size = 4096

unfoldable pub bitmap_set : Pmm → ℕ → Pmm
bitmap_set p b = record p {
  mem = set_word p.mem p.bitmap (b / 32) (bit_or (word p.mem p.bitmap (b / 32)) (1 << (b % 32)));
}

unfoldable pub bitmap_clear : Pmm → ℕ → Pmm
bitmap_clear p b = record p {
  mem =
      set_word p.mem p.bitmap (b / 32)
        (bit_and (word p.mem p.bitmap (b / 32)) (complement (1 << (b % 32))));
}

unfoldable pub bitmap_test : Pmm → ℕ → ℕ
bitmap_test p b = bit_and (word p.mem p.bitmap (b / 32)) (1 << (b % 32))

-- `bitmap_set(…); pmm_used_blocks++;`
unfoldable pub claim : ℕ → Pmm → Pmm
unfolding bitmap_set
claim b p = record (bitmap_set p b) { used_blocks = u32 (p.used_blocks + 1) }

-- `bitmap_clear(…); pmm_used_blocks--;`, where the counter wraps.
unfoldable pub give_back : ℕ → Pmm → Pmm
unfolding bitmap_clear
give_back b p = record (bitmap_clear p b) { used_blocks = u32 (p.used_blocks + 2 ^ 32 - 1) }

-- The body of the loop over a region.
unfoldable pub release_above : ℕ → ℕ → Pmm → Pmm
unfolding give_back
release_above safe_mem_start block_addr p =
    if leb safe_mem_start block_addr then give_back (block_addr / block_size) p else p

-- `for (i = …; i < len; i += PMM_BLOCK_SIZE)` over one available region. `i` wraps, so the loop
-- takes fuel; `none` is a loop that has not ended.
unfoldable pub free_region : ℕ → ℕ → ℕ → ℕ → ℕ → Pmm → Option Pmm
free_region zero safe_mem_start addr len i p = none
free_region (suc fuel) safe_mem_start addr len i p =
    let rest =
      free_region fuel safe_mem_start addr len (u32 (i + block_size))
        (release_above safe_mem_start (u32 (addr + i)) p) in
    if ltb i len then rest else some p

-- One entry of the memory map.
unfoldable pub free_entry : ℕ → ℕ → ℕ → Pmm → Option Pmm
unfolding free_region
free_entry fuel safe_mem_start mmap p =
    if Multiboot.entry_type p.mem mmap == Multiboot.memory_available
    then free_region fuel safe_mem_start (Multiboot.addr_low p.mem mmap)
        (Multiboot.len_low p.mem mmap) 0 p
    else some p

-- `while ((uint32_t)mmap < mbi->mmap_addr + mbi->mmap_length)`: the entries are read from the
-- memory that the loop writes to.
unfoldable pub walk_mmap : ℕ → ℕ → ℕ → ℕ → ℕ → Pmm → Option Pmm
walk_mmap region_fuel zero mbi safe_mem_start mmap p = none
walk_mmap region_fuel (suc fuel) mbi safe_mem_start mmap p =
    let rest = (do
      q ← free_entry region_fuel safe_mem_start mmap p
      walk_mmap region_fuel fuel mbi safe_mem_start
          (u32 (mmap + Multiboot.entry_size q.mem mmap + 4)) q) in
    if ltb mmap (u32 (Multiboot.mmap_addr p.mem mbi + Multiboot.mmap_length p.mem mbi))
    then rest
    else some p

-- Where safe memory starts: behind the kernel, and behind the last module.
unfoldable pub module_end : Memory → ℕ → ℕ → ℕ
module_end m mbi kernel_end =
    if not (bit_and (Multiboot.flags m mbi) (1 << 3) == 0) && ltb 0 (Multiboot.mods_count m mbi)
    then (if ltb kernel_end last_mod_end then last_mod_end else kernel_end)
    else kernel_end
  where
    last_mod_end : ℕ
    last_mod_end = Multiboot.mod_end m (Multiboot.mods_addr m mbi) (Multiboot.mods_count m mbi - 1)

-- The state before the memory map is read: every block marked as used.
unfoldable pub all_used : Memory → ℕ → ℕ → Pmm
unfolding module_end
all_used m mbi kernel_end =
    let mem_size_kb = u32 (Multiboot.mem_lower m mbi + Multiboot.mem_upper m mbi) in
    let blocks = u32 (mem_size_kb * 1024) / block_size in
    let start = module_end m mbi kernel_end in
    record {
      mem = memset m start 0xFF (blocks / 8);
      bitmap = start;
      max_blocks = blocks;
      used_blocks = blocks;
    }

-- `safe_mem_start += bitmap_size`
unfoldable pub safe_start : Pmm → ℕ
safe_start p = u32 (p.bitmap + p.max_blocks / 8)

unfoldable pub initialize : ℕ → ℕ → Memory → ℕ → ℕ → Option Pmm
unfolding all_used safe_start walk_mmap
initialize region_fuel fuel m mbi kernel_end =
    let p = all_used m mbi kernel_end in
    if not (bit_and (Multiboot.flags p.mem mbi) (1 << 6) == 0)
    then walk_mmap region_fuel fuel mbi (safe_start p) (Multiboot.mmap_addr p.mem mbi) p
    else some p

-- `for (i = …; i < pmm_max_blocks; i++)` with `left` rounds to go: the address and the new state.
unfoldable pub alloc_from : ℕ → ℕ → Pmm → ℕ × Pmm
alloc_from zero i p = (0, p)
alloc_from (suc left) i p =
    let rest = alloc_from left (i + 1) p in
    if bitmap_test p i == 0 then (u32 (i * block_size), claim i p) else rest

unfoldable pub alloc_block : Pmm → ℕ × Pmm
unfolding alloc_from claim
alloc_block p = alloc_from p.max_blocks 0 p

unfoldable pub free_block : ℕ → Pmm → Pmm
unfolding give_back
free_block addr p =
    if not (bitmap_test p (addr / block_size) == 0) then give_back (addr / block_size) p else p

unfoldable pub get_total_memory : Pmm → ℕ
get_total_memory p = u32 (p.max_blocks * block_size)

unfoldable pub get_free_memory : Pmm → ℕ
get_free_memory p = u32 (u32 (p.max_blocks + 2 ^ 32 - p.used_blocks) * block_size)

unfoldable pub get_used_memory : Pmm → ℕ
get_used_memory p = u32 (p.used_blocks * block_size)
