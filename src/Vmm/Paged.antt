-- ===== src/Vmm/Paged.antt =====
-- The directory and its tables beside the bitmap of the blocks.
use orbit_os.Base.{ℕ, ◌+◌, ◌*◌, ◌^◌, ◌≤◌, ◌<◌, ◌≡◌, ◌≢◌, arith, ◌∙◌, ap}
use orbit_os.Base.{sym}
use orbit_os.Memory.{load8, word}
use orbit_os.Pmm.{block_size}
use orbit_os.Pmm.Bitmap.{usage}
use orbit_os.Pmm.Region.{bitmap_span}
use orbit_os.Pmm.Ready.{OffBitmap, usage-same}
use orbit_os.Vmm.{Vmm}
use orbit_os.Vmm.Walk.{frame, HasTables, IsPresent}

-- The directory and its tables are blocks in use beside the bitmap: no free block is one of them.
-- Block 0 is in use, so that an address of 0 stands for "out of memory" only.
pub record IsPaged (v : Vmm) : Type 0 where
  pub tables : HasTables v.pmm.mem v.page_directory
  pub blocks_fit : v.pmm.max_blocks ≤ 2 ^ 20
  pub zero_used : usage v.pmm 0 ≡ 1
  pub pd_off : OffBitmap v.pmm v.page_directory
  pub tables_off :
      (i : ℕ)
      → IsPresent v.pmm.mem v.page_directory i
      → OffBitmap v.pmm (frame (word v.pmm.mem v.page_directory i))
  pub free_off :
      (b : ℕ) → b < v.pmm.max_blocks → usage v.pmm b ≡ 0 → OffBitmap v.pmm (b * block_size)
  pub free_not_pd :
      (b : ℕ) → b < v.pmm.max_blocks → usage v.pmm b ≡ 0 → b * block_size ≢ v.page_directory
  pub free_not_table :
      (b i : ℕ)
      → b < v.pmm.max_blocks
      → usage v.pmm b ≡ 0
      → IsPresent v.pmm.mem v.page_directory i
      → frame (word v.pmm.mem v.page_directory i) ≢ b * block_size

-- Where the directory's words and the bitmap are unchanged, the state is as good as before.
pub IsPaged-same :
    (v v' : Vmm)
    → v'.page_directory ≡ v.page_directory
    → v'.pmm.bitmap ≡ v.pmm.bitmap
    → v'.pmm.max_blocks ≡ v.pmm.max_blocks
    → ((j : ℕ) → j < 1024 → word v'.pmm.mem v.page_directory j ≡ word v.pmm.mem v.page_directory j)
    → ((a : ℕ)
        → v.pmm.bitmap ≤ a
        → a < v.pmm.bitmap + bitmap_span
        → load8 v'.pmm.mem a ≡ load8 v.pmm.mem a)
    → IsPaged v
    → IsPaged v'
IsPaged-same v v' e_pd e_bitmap e_max words bits h =
    let used : (c : ℕ) → c < 2 ^ 20 → usage v'.pmm c ≡ usage v.pmm c =
      λ c lt. usage-same v.pmm v'.pmm c e_bitmap bits lt in
    let was : (i : ℕ)
        → IsPresent v'.pmm.mem v.page_directory i
        → IsPresent v.pmm.mem v.page_directory i =
      λ i on. (on.0, rw (words i on.0) at on.1) in
    let fits : (b : ℕ) → b < v'.pmm.max_blocks → b < v.pmm.max_blocks = λ b lt. omega arith in
    let was_free : (b : ℕ) → b < v'.pmm.max_blocks → usage v'.pmm b ≡ 0 → usage v.pmm b ≡ 0 =
      λ b lt free. sym (used b (omega (arith, h.blocks_fit))) ∙ free in
    record {
      tables = rw e_pd (record {
        aligned = h.tables.aligned;
        not_pd = λ i on. rw (words i on.0) (h.tables.not_pd i (was i on));
        not_shared = λ i j on on' ne.
            rw (words i on.0, words j on'.0) (h.tables.not_shared i j (was i on) (was j on') ne);
      });
      blocks_fit = rw e_max h.blocks_fit;
      zero_used = used 0 (omega arith) ∙ h.zero_used;
      pd_off = rw (e_pd, e_bitmap) h.pd_off;
      tables_off = rw (e_pd, e_bitmap) (λ i on. rw (words i on.0) (h.tables_off i (was i on)));
      free_off = λ b lt free. omega (arith, h.free_off b (fits b lt) (was_free b lt free));
      free_not_pd = λ b lt free e. h.free_not_pd b (fits b lt) (was_free b lt free) (e ∙ e_pd);
      free_not_table = λ b i lt free on e.
          let on' : IsPresent v'.pmm.mem v.page_directory i = rw e_pd at on in
          h.free_not_table b i (fits b lt) (was_free b lt free) (was i on')
            (ap frame (sym (words i on'.0)) ∙ rw e_pd at e);
    }
