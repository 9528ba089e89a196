-- ===== src/Vmm/Table.antt =====
-- Entering a new table: the directory and the tables stay apart, and nothing is mapped by it yet.
use native.Mathlib.Decide.{ℕ_discrete}
use orbit_os.Base.{ℕ, ◌+◌, ◌*◌, ◌/◌, ◌%◌, ◌^◌, ◌≤◌, ◌<◌, ◌≡◌, ◌≢◌, ◌⊎◌, refl, arith, ◌∙◌}
use orbit_os.Base.{sym, true, false, ◌==◌, if◌then◌else◌}
use orbit_os.Memory.{Memory, load8, load32, word, set_word, word-set_word, load8-set_word_ne}
use orbit_os.Strings.{memset}
use orbit_os.Strings.Blocks.{load8-memset}
use orbit_os.Pmm.{claim, block_size}
use orbit_os.Pmm.Bitmap.{usage}
use orbit_os.Pmm.Region.{bitmap_span}
use orbit_os.Vmm.{Vmm, add_table}
use orbit_os.Vmm.Walk.{
  frame, translate, translate-same, entry_lem, word-set_word_other, word-same, IsPresent,
}
use orbit_os.Pmm.Ready.{OffBitmap, load8-claim}
use orbit_os.Vmm.Paged.{IsPaged}

-- The state after block `b` was claimed for a table.
abbrev pub claimed : Vmm → ℕ → Vmm
claimed v b = record v { pmm = claim b v.pmm }

pub load32_of_zeros :
    (m : Memory) (a : ℕ) → ((c : ℕ) → a ≤ c → c < a + 4 → load8 m c ≡ 0) → load32 m a ≡ 0
unfolding load32
load32_of_zeros m a zeros = omega (
  arith,
  zeros a (omega arith) (omega arith),
  zeros (a + 1) (omega arith) (omega arith),
  zeros (a + 2) (omega arith) (omega arith),
  zeros (a + 3) (omega arith) (omega arith),
)

module _ (virt flags b : ℕ) (v : Vmm) (h : IsPaged v) (hv : virt < 2 ^ 32) (hf : flags < 4096)
    (lt : b < v.pmm.max_blocks) (free : usage v.pmm b ≡ 0)
    (absent : word v.pmm.mem v.page_directory (virt / 2 ^ 22) % 2 ≡ 0) where
  unfoldable pub entered : Memory
  entered = (add_table virt flags (b * block_size) (claimed v b)).pmm.mem

  cleared : Memory
  cleared = memset (claim b v.pmm).mem (b * block_size) 0 4096

  abbrev new_entry : ℕ
  new_entry = b * 4096 + flags / 2 * 2 + 1

  in_range : b < 2 ^ 20
  in_range = omega (arith, h.blocks_fit)

  entered_lem : entered ≡ set_word cleared v.page_directory (virt / 2 ^ 22) new_entry
  unfolding entered cleared add_table
  entered_lem = rw (entry_lem b flags hf) refl

  -- Off the bitmap and off the new table nothing changes.
  load8-cleared :
      (a : ℕ)
      → (a < v.pmm.bitmap) ⊎ (v.pmm.bitmap + bitmap_span ≤ a)
      → (a < b * block_size) ⊎ (b * block_size + 4096 ≤ a)
      → load8 cleared a ≡ load8 v.pmm.mem a
  unfolding cleared
  load8-cleared a off out =
      load8-memset (claim b v.pmm).mem (b * block_size) 0 4096 a
      ∙ ground (arith, load8-claim v.pmm b a in_range off)

  -- A page that is not the new table keeps its words.
  word-cleared :
      (page j : ℕ)
      → page % 4096 ≡ 0
      → OffBitmap v.pmm page
      → page ≢ b * block_size
      → j < 1024
      → word cleared page j ≡ word v.pmm.mem page j
  word-cleared page j aligned off ne hj =
      word-same v.pmm.mem cleared page j (λ a ge lt'. load8-cleared a (omega arith) (omega arith))
        hj

  -- The directory afterwards.
  pub directory-entered :
      (j : ℕ)
      → j < 1024
      → word entered v.page_directory j
        ≡ (if j == virt / 2 ^ 22 then new_entry else word v.pmm.mem v.page_directory j)
  directory-entered j hj = rw entered_lem (
      word-set_word cleared v.page_directory (virt / 2 ^ 22) new_entry j
      ∙ ground (
        arith,
        in_range,
        word-cleared v.page_directory j h.tables.aligned h.pd_off
            (λ e. h.free_not_pd b lt free (sym e)) hj,
      ))

  -- The words of the tables that were there.
  table-entered :
      (i k : ℕ)
      → IsPresent v.pmm.mem v.page_directory i
      → k < 1024
      → word entered (frame (word v.pmm.mem v.page_directory i)) k
        ≡ word v.pmm.mem (frame (word v.pmm.mem v.page_directory i)) k
  table-entered i k on hk =
      let page = frame (word v.pmm.mem v.page_directory i) in
      rw entered_lem (
        word-set_word_other cleared v.page_directory page (virt / 2 ^ 22) k new_entry
          h.tables.aligned (omega arith) (λ e. h.tables.not_pd i on (sym e)) (omega arith) hk
        ∙ word-cleared page k (omega arith) (h.tables_off i on) (h.free_not_table b i lt free on)
            hk)

  -- The words of the new table.
  new_table_zero : (k : ℕ) → k < 1024 → word entered (b * block_size) k ≡ 0
  unfolding word
  new_table_zero k hk = rw entered_lem (
      word-set_word_other cleared v.page_directory (b * block_size) (virt / 2 ^ 22) k new_entry
        h.tables.aligned (omega arith) (λ e. h.free_not_pd b lt free (sym e)) (omega arith) hk
      ∙ load32_of_zeros cleared (b * block_size + 4 * k) (λ c ge lt'.
        unfold cleared in
        (load8-memset (claim b v.pmm).mem (b * block_size) 0 4096 c ∙ ground arith)))

  -- No translation changes.
  pub translate-entered :
      (a : ℕ)
      → a < 2 ^ 32
      → translate entered v.page_directory a ≡ translate v.pmm.mem v.page_directory a
  translate-entered a ha = elim (ℕ_discrete (a / 2 ^ 22) (virt / 2 ^ 22)) [
    | yes same ↦
        unfold translate in
        (let test : (a / 2 ^ 22 == virt / 2 ^ 22) ≡ true = ground arith in
          let place : frame new_entry ≡ b * block_size = omega arith in
          let off : (word v.pmm.mem v.page_directory (virt / 2 ^ 22) % 2 == 0) ≡ true =
            ground (arith, absent) in
          let on : (new_entry % 2 == 0) ≡ false = ground arith in
          rw
            (
              directory-entered (a / 2 ^ 22) (omega arith),
              test,
              on,
              place,
              new_table_zero (a / 4096 % 1024) (omega arith),
              same,
              off,
            )
            refl)
    | no differ ↦
        let test : (a / 2 ^ 22 == virt / 2 ^ 22) ≡ false = ground arith in
        translate-same v.pmm.mem entered v.page_directory a
          (directory-entered (a / 2 ^ 22) (omega arith) ∙ rw test refl)
          (λ on. table-entered (a / 2 ^ 22) (a / 4096 % 1024) (omega arith, on) (omega arith))
  ]

  -- The bitmap is written by the claim only.
  pub load8-entered :
      (a : ℕ)
      → v.pmm.bitmap ≤ a
      → a < v.pmm.bitmap + bitmap_span
      → load8 entered a ≡ load8 (claim b v.pmm).mem a
  load8-entered a ge lt' = rw entered_lem (
      load8-set_word_ne cleared v.page_directory (virt / 2 ^ 22) new_entry a
        (omega (arith, h.pd_off))
      ∙ unfold cleared in
        (load8-memset (claim b v.pmm).mem (b * block_size) 0 4096 a
          ∙ ground (arith, h.free_off b lt free)))
