-- ===== src/Vmm.antt =====
-- memory/vmm.c: the page directory and the page tables, in blocks of the physical memory manager.
-- Loading CR3 and CR0 is assembly.
pub mod Walk
pub mod Page
pub mod Paged
pub mod Table
pub mod Map
pub mod Identity
use orbit_os.Base.{ℕ, zero, suc, ◌+◌, ◌-◌, ◌*◌, ◌/◌, ◌%◌, ◌^◌, bit_and, bit_or}
use orbit_os.Base.{◌==◌, if◌then◌else◌, u32, ◌>>◌, complement}
use orbit_os.Memory.{Memory, word, set_word}
use orbit_os.Strings.{memset}
use orbit_os.Pmm.{Pmm, alloc_block}

pub record Vmm : Type 0 where
  pub pmm : Pmm
  pub page_directory : ℕ

abbrev pub present : ℕ
present = 1

abbrev pub writable : ℕ
writable = 2

abbrev pub user : ℕ
user = 4

abbrev pub with_mem : Memory → Pmm → Pmm
with_mem m p = record p { mem = m }

abbrev pub pd_index : ℕ → ℕ
pd_index virt = virt >> 22

abbrev pub pt_index : ℕ → ℕ
pt_index virt = bit_and (virt >> 12) 0x03FF

-- A new table `pt` for the directory's entry: cleared, and entered.
unfoldable pub add_table : ℕ → ℕ → ℕ → Vmm → Vmm
add_table virt flags pt v = record v {
  pmm =
      with_mem
        (set_word (memset v.pmm.mem pt 0 4096) v.page_directory (pd_index virt)
          (bit_or (bit_or pt flags) present))
        v.pmm;
}

-- `pt[pt_index] = (phys & ~0xFFF) | flags | I86_PDE_PRESENT` in the table of the entry.
unfoldable pub set_page : ℕ → ℕ → ℕ → Vmm → Vmm
set_page phys virt flags v =
    let m = v.pmm.mem in
    let pt = bit_and (word m v.page_directory (pd_index virt)) (complement 0xFFF) in
    record v {
      pmm =
          with_mem
            (set_word m pt (pt_index virt)
              (bit_or (bit_or (bit_and phys (complement 0xFFF)) flags) present))
            v.pmm;
    }

unfoldable pub map_page : ℕ → ℕ → ℕ → Vmm → Vmm
unfolding add_table set_page
map_page phys virt flags v =
    let (pt, pmm) = alloc_block v.pmm in
    let allocated : Vmm = record v { pmm = pmm } in
    if bit_and (word v.pmm.mem v.page_directory (pd_index virt)) present == 0
    then (if pt == 0
        then allocated
        else set_page phys virt flags (add_table virt flags pt allocated))
    else set_page phys virt flags v

-- `for (i = …; i < 4096; i++) vmm_map_page(i * 4096, i * 4096, …)`
unfoldable pub map_all : ℕ → ℕ → ℕ → ℕ → Vmm → Vmm
map_all zero start i flags v = v
map_all (suc left) start i flags v =
    map_all left start (i + 1) flags
      (map_page (u32 (start + i * 4096)) (u32 (start + i * 4096)) flags v)

-- `page_directory = pmm_alloc_block()`, and the directory cleared where there is one.
unfoldable pub make_directory : Vmm → Vmm
make_directory v =
    let (pd, pmm) = alloc_block v.pmm in
    record {
      pmm = (if pd == 0 then pmm else with_mem (memset pmm.mem pd 0 4096) pmm);
      page_directory = pd;
    }

unfoldable pub initialize : Vmm → Vmm
unfolding make_directory
initialize v =
    let start = make_directory v in
    if start.page_directory == 0 then start else map_all 4096 0 0 (bit_or writable user) start
