-- ===== src/Vmm/Map.antt =====
-- `vmm_map_page` on both of its branches.
use native.Mathlib.Decide.{ℕ_discrete}
use orbit_os.Base.{ℕ, ◌+◌, ◌*◌, ◌/◌, ◌%◌, ◌^◌, ◌<◌, ◌≡◌, ◌≢◌, ◌⊎◌, refl, arith, ◌∙◌, ap}
use orbit_os.Base.{some, sym, true, false, ◌==◌, if◌then◌else◌, inl, inr, bit_and, u32}
use orbit_os.Bits.{bit_and-mask}
use orbit_os.Memory.{word}
use orbit_os.Pmm.{Pmm, claim, bitmap_set, block_size, alloc_block}
use orbit_os.Pmm.Bitmap.{usage}
use orbit_os.Pmm.Alloc.{usage-claim, AllUsed, Scanned, alloc_block-Scanned}
use orbit_os.Vmm.{Vmm, add_table, set_page, map_page}
use orbit_os.Vmm.Walk.{frame, HasTables, IsPresent}
use orbit_os.Vmm.Page.{
  IsRemapped, mem-set_page, written, directory-written, written-IsRemapped, load8-written,
}
use orbit_os.Pmm.Ready.{OffBitmap, usage-same, bitmap-claim}
use orbit_os.Vmm.Paged.{IsPaged, IsPaged-same}
use orbit_os.Vmm.Table.{claimed, entered, directory-entered, translate-entered, load8-entered}

-- One page is mapped anew, and the state stays good.
abbrev pub IsMapped : ℕ → ℕ → Vmm → Vmm → Type 0
IsMapped phys virt v v' =
    IsPaged v'
    × (v'.page_directory ≡ v.page_directory)
    × IsRemapped phys virt v.page_directory v.pmm.mem v'.pmm.mem

module _ (phys virt flags : ℕ) (hp : phys < 2 ^ 32) (hv : virt < 2 ^ 32) (hf : flags < 4096) where
  -- Where the table is there.
  set_page-IsMapped :
      (v : Vmm)
      → IsPaged v
      → IsPresent v.pmm.mem v.page_directory (virt / 2 ^ 22)
      → IsMapped phys virt v (set_page phys virt flags v)
  set_page-IsMapped v h there =
      let m = v.pmm.mem in
      let pd = v.page_directory in
      let now : (set_page phys virt flags v).pmm.mem
          ≡ written phys virt flags hp hv hf m pd h.tables there =
        mem-set_page phys virt flags hp hv hf v ∙ unfold written in refl in
      (
        IsPaged-same v (set_page phys virt flags v) (unfold set_page in refl)
            (unfold set_page in refl) (unfold set_page in refl)
            (λ j hj. rw now (directory-written phys virt flags hp hv hf m pd h.tables there j hj))
            (λ a ge lt. rw now (
              load8-written phys virt flags hp hv hf m pd h.tables there a
                (omega (arith, h.tables_off (virt / 2 ^ 22) there))))
            h,
        unfold set_page in refl,
        rw now (written-IsRemapped phys virt flags hp hv hf m pd h.tables there),
      )

  module _ (v : Vmm) (h : IsPaged v) (b : ℕ) (lt : b < v.pmm.max_blocks) (free : usage v.pmm b ≡ 0)
      (absent : word v.pmm.mem v.page_directory (virt / 2 ^ 22) % 2 ≡ 0) where
    with_table : Vmm
    with_table = add_table virt flags (b * block_size) (claimed v b)

    abbrev dir : ℕ → ℕ
    dir j = word v.pmm.mem v.page_directory j

    words_now :
        (j : ℕ)
        → j < 1024
        → word with_table.pmm.mem v.page_directory j
          ≡ (if j == virt / 2 ^ 22 then b * 4096 + flags / 2 * 2 + 1 else dir j)
    unfolding with_table
    words_now j hj = unfold entered in directory-entered virt flags b v h hv hf lt free absent j hj

    used_now : (c : ℕ) → c < 2 ^ 20 → usage with_table.pmm c ≡ (if b == c then 1 else usage v.pmm c)
    unfolding with_table
    used_now c hc =
        usage-same (claim b v.pmm) with_table.pmm c (unfold add_table in refl)
          (λ a ge lt'.
            unfold entered in
            load8-entered virt flags b v h hv hf lt free absent a (rw (bitmap-claim v.pmm b) at ge)
              (rw (bitmap-claim v.pmm b) at lt'))
          hc
        ∙ usage-claim v.pmm b c

    -- A present entry is the new one, at the block, or one that was there.
    entry_cases :
        (i : ℕ)
        → IsPresent with_table.pmm.mem v.page_directory i
        → ((i ≡ virt / 2 ^ 22)
            × (frame (word with_table.pmm.mem v.page_directory i) ≡ b * block_size))
          ⊎ (IsPresent v.pmm.mem v.page_directory i
              × (word with_table.pmm.mem v.page_directory i ≡ dir i))
    entry_cases i on = elim (ℕ_discrete i (virt / 2 ^ 22)) [
      | yes same ↦
          let test : (i == virt / 2 ^ 22) ≡ true = ground arith in
          inl (same, rw (words_now i on.0, test) (omega arith))
      | no differ ↦
          let test : (i == virt / 2 ^ 22) ≡ false = ground arith in
          let e : word with_table.pmm.mem v.page_directory i ≡ dir i =
            words_now i on.0 ∙ rw test refl in
          inr ((on.0, rw e at on.1), e)
    ]

    still_free :
        (c : ℕ) → c < v.pmm.max_blocks → usage with_table.pmm c ≡ 0 → (usage v.pmm c ≡ 0) × (c ≢ b)
    still_free c hc e =
        let u = used_now c (omega (arith, h.blocks_fit)) in
        (ground (arith, u, e), ground (arith, u, e))

    with_table_fields :
        (with_table.pmm.bitmap ≡ v.pmm.bitmap)
        × (with_table.pmm.max_blocks ≡ v.pmm.max_blocks)
        × (with_table.page_directory ≡ v.page_directory)
    unfolding with_table add_table claim bitmap_set
    with_table_fields = (refl, refl, refl)

    OffBitmap-with_table : (page : ℕ) → OffBitmap v.pmm page → OffBitmap with_table.pmm page
    OffBitmap-with_table page off = rw (with_table_fields.0) off

    HasTables-with_table : HasTables with_table.pmm.mem v.page_directory
    HasTables-with_table = record {
      aligned = h.tables.aligned;
      not_pd = λ i on. elim (entry_cases i on) [
        | inl (at, e) ↦ rw e (h.free_not_pd b lt free)
        | inr (was, e) ↦ rw e (h.tables.not_pd i was)
      ];
      not_shared = λ i j on on' ne. elim (entry_cases i on) [
        | inl (at, e) ↦ elim (entry_cases j on') [
          | inl (at', e') ↦ absurd (ne (at ∙ sym at'))
          | inr (was', e') ↦ rw (e, e') (λ q. h.free_not_table b j lt free was' (sym q))
        ]
        | inr (was, e) ↦ elim (entry_cases j on') [
          | inl (at', e') ↦ rw (e, e') (h.free_not_table b i lt free was)
          | inr (was', e') ↦ rw (e, e') (h.tables.not_shared i j was was' ne)
        ]
      ];
    }

    IsPaged-with_table : IsPaged with_table
    unfolding with_table add_table
    IsPaged-with_table =
        let max_same : with_table.pmm.max_blocks ≡ v.pmm.max_blocks = with_table_fields.1 in
        let fits : (c : ℕ) → c < with_table.pmm.max_blocks → c < v.pmm.max_blocks =
          λ c hc. omega arith in
        record {
          tables = HasTables-with_table;
          blocks_fit = omega (arith, h.blocks_fit, max_same);
          zero_used = used_now 0 (omega arith) ∙ ground (arith, h.zero_used);
          pd_off = OffBitmap-with_table v.page_directory h.pd_off;
          tables_off = λ i on. elim (entry_cases i on) [
            | inl (at, e) ↦ rw e (OffBitmap-with_table (b * block_size) (h.free_off b lt free))
            | inr (was, e) ↦ rw e (OffBitmap-with_table (frame (dir i)) (h.tables_off i was))
          ];
          free_off = λ c hc e.
              OffBitmap-with_table (c * block_size)
                (h.free_off c (fits c hc) (still_free c (fits c hc) e).0);
          free_not_pd = λ c hc e. h.free_not_pd c (fits c hc) (still_free c (fits c hc) e).0;
          free_not_table = λ c i hc e on.
              let (was_free, ne) = still_free c (fits c hc) e in
              elim (entry_cases i on) [
                | inl (at, q) ↦ rw q (λ r. ne (omega arith))
                | inr (was, q) ↦ rw q (h.free_not_table c i (fits c hc) was_free was)
              ];
        }

    -- Where a table is claimed for the entry.
    new_table-IsMapped :
        (v' : Vmm) → v' ≡ set_page phys virt flags with_table → IsMapped phys virt v v'
    unfolding with_table add_table entered
    new_table-IsMapped v' e =
        let there : IsPresent with_table.pmm.mem v.page_directory (virt / 2 ^ 22) =
          (omega arith, rw (words_now (virt / 2 ^ 22) (omega arith)) (ground arith)) in
        let (paged, same, remapped) = set_page-IsMapped with_table IsPaged-with_table there in
        rw e (
          paged,
          same,
          λ a ha.
              remapped a ha
              ∙ ap (λ t. if a / 4096 == virt / 4096 then some (frame phys + a % 4096) else t)
                  (translate-entered virt flags b v h hv hf lt free absent a ha),
        )

  pub map_page-IsMapped :
      (v : Vmm)
      → IsPaged v
      → IsMapped phys virt v (map_page phys virt flags v)
        ⊎ (¬ IsPresent v.pmm.mem v.page_directory (virt / 2 ^ 22)
            × AllUsed v.pmm 0 v.pmm.max_blocks
            × (map_page phys virt flags v ≡ v))
  unfolding map_page
  map_page-IsMapped v h =
      elim (ℕ_discrete (word v.pmm.mem v.page_directory (virt / 2 ^ 22) % 2) 0) [
        | yes absent ↦
            let test : (bit_and (word v.pmm.mem v.page_directory (virt / 2 ^ 22)) 1 == 0) ≡ true =
              rw (bit_and-mask 1 (word v.pmm.mem v.page_directory (virt / 2 ^ 22)))
                (ground (arith, absent)) in
            rw test (allocated absent (alloc_block-Scanned v.pmm))
        | no on ↦
            let test : (bit_and (word v.pmm.mem v.page_directory (virt / 2 ^ 22)) 1 == 0) ≡ false =
              rw (bit_and-mask 1 (word v.pmm.mem v.page_directory (virt / 2 ^ 22)))
                (ground (arith, on)) in
            rw test (inl (set_page-IsMapped v h (omega arith, on)))
      ]
    where
      after : ℕ × Pmm → Vmm
      after (pt, pmm) =
          if pt == 0
          then record v { pmm = pmm }
          else set_page phys virt flags (add_table virt flags pt (record v { pmm = pmm }))

      allocated :
          word v.pmm.mem v.page_directory (virt / 2 ^ 22) % 2 ≡ 0
          → Scanned v.pmm 0 v.pmm.max_blocks (alloc_block v.pmm)
          → IsMapped phys virt v (after (alloc_block v.pmm))
            ⊎ (¬ IsPresent v.pmm.mem v.page_directory (virt / 2 ^ 22)
                × AllUsed v.pmm 0 v.pmm.max_blocks
                × (after (alloc_block v.pmm) ≡ v))
      allocated absent (inl (b, ge, lt, free, below, eq)) =
          let not_zero : b ≢ 0 = λ z. absurd (omega (arith, h.zero_used, rw z at free)) in
          let place : u32 (b * block_size) ≡ b * block_size = omega (arith, h.blocks_fit) in
          let found : (b * block_size == 0) ≡ false = ground (arith, not_zero) in
          rw (eq, place, found)
            (inl (new_table-IsMapped v h b lt free absent _ (unfold with_table in refl)))
      allocated absent (inr (all, eq)) = rw eq (inr ((λ there. there.1 absent), all, refl))
