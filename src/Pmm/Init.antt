-- ===== src/Pmm/Init.antt =====
-- `pmm_initialize`: which blocks are free once the memory map is read.
use orbit_os.Base.{ℕ, ◌+◌, ◌^◌, ◌≤◌, ◌<◌, ◌≡◌, ◌⊎◌}
use orbit_os.Memory.{Memory}
use orbit_os.Multiboot
use orbit_os.Pmm.{Pmm}
use orbit_os.Pmm.Region.{bitmap_span}

-- The map from `a` to `stop` and the two fields that delimit it lie outside the bitmap.
pub record IsApart (mbi a stop : ℕ) (p : Pmm) : Type 0 where
  pub map_apart : (stop ≤ p.bitmap) ⊎ (p.bitmap + bitmap_span ≤ a)
  pub info_apart : (mbi + 52 ≤ p.bitmap) ⊎ (p.bitmap + bitmap_span ≤ mbi + 44)
  pub ends : Multiboot.mmap_addr p.mem mbi + Multiboot.mmap_length p.mem mbi ≡ stop
  pub fits : stop < 2 ^ 32
