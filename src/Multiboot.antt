-- ===== src/Multiboot.antt =====
-- kernel/multiboot.h: the packed structures that the boot loader leaves in memory, read field by
-- field at their offsets.
use orbit_os.Base.{ℕ, ◌+◌, ◌*◌}
use orbit_os.Memory.{Memory, load32}

-- `struct multiboot_info`
module _ (m : Memory) (mbi : ℕ) where
  abbrev pub flags : ℕ
  flags = load32 m mbi

  abbrev pub mem_lower : ℕ
  mem_lower = load32 m (mbi + 4)

  abbrev pub mem_upper : ℕ
  mem_upper = load32 m (mbi + 8)

  abbrev pub mods_count : ℕ
  mods_count = load32 m (mbi + 20)

  abbrev pub mods_addr : ℕ
  mods_addr = load32 m (mbi + 24)

  abbrev pub mmap_length : ℕ
  mmap_length = load32 m (mbi + 44)

  abbrev pub mmap_addr : ℕ
  mmap_addr = load32 m (mbi + 48)

-- Element `i` of an array of `multiboot_module_t`.
module _ (m : Memory) (mods i : ℕ) where
  abbrev pub mod_start : ℕ
  mod_start = load32 m (mods + 16 * i)

  abbrev pub mod_end : ℕ
  mod_end = load32 m (mods + 16 * i + 4)

-- `struct multiboot_mmap_entry`
module _ (m : Memory) (mmap : ℕ) where
  abbrev pub entry_size : ℕ
  entry_size = load32 m mmap

  abbrev pub addr_low : ℕ
  addr_low = load32 m (mmap + 4)

  abbrev pub len_low : ℕ
  len_low = load32 m (mmap + 12)

  abbrev pub entry_type : ℕ
  entry_type = load32 m (mmap + 20)

abbrev pub memory_available : ℕ
memory_available = 1
