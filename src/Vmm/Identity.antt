-- ===== src/Vmm/Identity.antt =====
-- `vmm_initialize`: the first 16 MB map to themselves.
use orbit_os.Base.{ℕ, ◌*◌, ◌<◌, ◌≡◌}
use orbit_os.Base.{some}
use orbit_os.Strings.{memset}
use orbit_os.Pmm.{Pmm, block_size, claim}
use orbit_os.Pmm.Alloc.{AllUsed}
use orbit_os.Pmm.Bitmap.{usage}
use orbit_os.Pmm.Ready.{IsReady}
use orbit_os.Vmm.{Vmm, with_mem}
use orbit_os.Vmm.Walk.{translate}

-- The addresses below `top` map to themselves.
abbrev pub IsIdentity : Vmm → ℕ → Type 0
IsIdentity v top = (a : ℕ) → a < top → translate v.pmm.mem v.page_directory a ≡ some a

-- Memory that has run out stays so: nothing frees a block.
abbrev pub IsFull : Vmm → Type 0
IsFull v = AllUsed v.pmm 0 v.pmm.max_blocks

module _ (p : Pmm) (ready : IsReady p) (b : ℕ) (lt : b < p.max_blocks) (free : usage p b ≡ 0) where
  -- The state with an empty directory in block `b`.
  fresh : Vmm
  fresh = record {
    pmm = with_mem (memset (claim b p).mem (b * block_size) 0 4096) (claim b p);
    page_directory = b * block_size;
  }
