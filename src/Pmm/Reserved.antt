-- ===== src/Pmm/Reserved.antt =====
-- `pmm_initialize`: what it keeps in use, by the boot information.
use orbit_os.Base.{ℕ, ◌+◌, ◌*◌, ◌/◌, ◌%◌, ◌^◌, ◌≤◌, ◌<◌, ◌≡◌, arith}
use orbit_os.Base.{◌==◌, if◌then◌else◌, ltb, ◌&&◌, u32}
use orbit_os.Base.{◌<<◌, bit_and}
use orbit_os.Memory.{Memory}
use orbit_os.Multiboot
use orbit_os.Pmm.{block_size, all_used, module_end, safe_start}
use orbit_os.Base.{◌-◌, not}
use orbit_os.Bits.{bit, bit_and-pow}

-- Where the last module ends, 0 where the boot loader announces none.
abbrev pub last_module_end : Memory → ℕ → ℕ
last_module_end m mbi =
    if (Multiboot.flags m mbi / 8 % 2 == 1) && ltb 0 (Multiboot.mods_count m mbi)
    then Multiboot.mod_end m (Multiboot.mods_addr m mbi) (Multiboot.mods_count m mbi - 1)
    else 0

-- The blocks of the memory that the boot loader reports.
abbrev pub reported_blocks : Memory → ℕ → ℕ
reported_blocks m mbi =
    u32 ((Multiboot.mem_lower m mbi + Multiboot.mem_upper m mbi) * 1024) / block_size

-- The first address behind the kernel, the last module and a bitmap of whole bytes that follows them.
abbrev pub in_use_end : Memory → ℕ → ℕ → ℕ
in_use_end m mbi kernel_end =
    (if ltb kernel_end (last_module_end m mbi) then last_module_end m mbi else kernel_end)
    + reported_blocks m mbi / 8

flag_3 : (n : ℕ) → not (bit_and n (1 << 3) == 0) ≡ (n / 8 % 2 == 1)
unfolding bit
flag_3 n =
    let masked : bit_and n 8 ≡ n / 2 / 2 / 2 % 2 * 8 = bit_and-pow 3 n in ground (arith, masked)

module_end_lem :
    (m : Memory) (mbi kernel_end : ℕ)
    → module_end m mbi kernel_end
      ≡ (if ltb kernel_end (last_module_end m mbi) then last_module_end m mbi else kernel_end)
unfolding module_end
module_end_lem m mbi kernel_end = rw (flag_3 (Multiboot.flags m mbi)) (ground arith)

pub blocks-all_used :
    (m : Memory) (mbi kernel_end : ℕ)
    → (all_used m mbi kernel_end).max_blocks ≡ reported_blocks m mbi
unfolding all_used
blocks-all_used m mbi kernel_end = omega arith

pub bitmap-all_used :
    (m : Memory) (mbi kernel_end : ℕ)
    → (all_used m mbi kernel_end).bitmap
      ≡ (if ltb kernel_end (last_module_end m mbi) then last_module_end m mbi else kernel_end)
unfolding all_used
bitmap-all_used m mbi kernel_end = module_end_lem m mbi kernel_end

pub safe_start-all_used :
    (m : Memory) (mbi kernel_end : ℕ)
    → in_use_end m mbi kernel_end < 2 ^ 32
    → safe_start (all_used m mbi kernel_end) ≡ in_use_end m mbi kernel_end
unfolding safe_start
safe_start-all_used m mbi kernel_end fits =
    rw (bitmap-all_used m mbi kernel_end, blocks-all_used m mbi kernel_end) (omega (arith, fits))

pub larger_bounds :
    (a b c : ℕ) → (a ≤ (if ltb a b then b else a) + c) × (b ≤ (if ltb a b then b else a) + c)
larger_bounds a b c = (ground arith, ground arith)
