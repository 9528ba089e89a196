-- ===== src/Process/Allocate.antt =====
-- The two blocks of a new thread, beside the bitmap and the records of the run queue.
use orbit_os.Base.{ℕ, ◌+◌, ◌*◌, ◌^◌, ◌≤◌, ◌<◌, ◌≡◌, ◌≢◌, ◌⊎◌, ◌∙◌, refl, arith, ap}
use orbit_os.Base.{List, ◌∷◌, All, ◌==◌, if◌then◌else◌}
use orbit_os.Memory.{Memory, load32, store32, load32-store32_ne, load32-store32_self}
use orbit_os.Pmm.{bitmap_set, Pmm, block_size, claim}
use orbit_os.Pmm.Bitmap.{usage}
use orbit_os.Pmm.Region.{bitmap_span}
use orbit_os.Pmm.Alloc.{usage-claim}
use orbit_os.Pmm.Ready.{IsReady, usage-same_words, load32-claim, bitmap-claim}
use orbit_os.Process.{Processes, with_mem, prepare}
use orbit_os.Process.Ring.{IsRing}
use orbit_os.Process.Prepare.{IsPrepared, OffRecord, load32-prepare, prepare-IsPrepared}

-- A record beside the bitmap and beside every block that is free.
pub record IsPlaced (p : Pmm) (proc : ℕ) : Type 0 where
  pub off_bitmap : (proc + 20 ≤ p.bitmap) ⊎ (p.bitmap + bitmap_span ≤ proc)
  pub off_free :
      (b : ℕ)
      → b < p.max_blocks
      → usage p b ≡ 0
      → (proc + 20 ≤ b * block_size) ⊎ (b * block_size + block_size ≤ proc)

-- The run queue is a ring of records beside the bitmap and the free blocks.
pub record IsOrderly (s : Processes) (xs : List ℕ) : Type 0 where
  pub ready : IsReady s.pmm
  pub few_blocks : s.pmm.max_blocks < 2 ^ 20
  pub queue_word : s.process_queue < 2 ^ 32
  pub ring : IsRing s.pmm.mem s.process_queue xs
  pub placed : All (IsPlaced s.pmm) (s.process_queue ∷ xs)

-- After the two allocations: the record stands in block `b1`, the stack in block `b2`.
module _ (p : Pmm) (pid b1 : ℕ) where
  abbrev pub proc : ℕ
  proc = b1 * block_size

  -- After the first allocation and the write of the number.
  abbrev pub named : Pmm
  named = with_mem (store32 (claim b1 p).mem proc pid) (claim b1 p)

  pub max_blocks-named : named.max_blocks ≡ p.max_blocks
  unfolding claim bitmap_set
  max_blocks-named = refl

  pub usage-named :
      IsReady p
      → p.max_blocks < 2 ^ 20
      → b1 < p.max_blocks
      → usage p b1 ≡ 0
      → (c : ℕ) → c < 2 ^ 20
      → usage named c ≡ (if b1 == c then 1 else usage p c)
  usage-named ready few lt1 free1 c h =
      usage-same_words (claim b1 p) named c refl
        (λ a ge le.
          load32-store32_ne (claim b1 p).mem proc pid a
            (omega (arith, ready.free_off b1 lt1 free1, bitmap-claim p b1)))
        h
      ∙ usage-claim p b1 c

module _ (p : Pmm) (pid b1 b2 : ℕ) where
  abbrev pub base : ℕ
  base = b2 * block_size

  abbrev pub both : Pmm
  both = claim b2 (named p pid b1)

  module _ (ready : IsReady p) (few : p.max_blocks < 2 ^ 20) (lt1 : b1 < p.max_blocks)
      (lt2 : b2 < p.max_blocks) (free1 : usage p b1 ≡ 0)
      (free2 : usage (named p pid b1) b2 ≡ 0) where
    pub blocks_differ : b2 ≢ b1
    blocks_differ = ground (arith, usage-named p pid b1 ready few lt1 free1 b2 (omega arith), free2)

    pub second_free : usage p b2 ≡ 0
    second_free =
        ground
          (arith, usage-named p pid b1 ready few lt1 free1 b2 (omega arith), free2, blocks_differ)

    pub usage-both :
        (c : ℕ)
        → c < 2 ^ 20
        → usage both c ≡ (if b2 == c then 1 else if b1 == c then 1 else usage p c)
    usage-both c h =
        usage-claim (named p pid b1) b2 c
        ∙ ap (λ n. if b2 == c then 1 else n) (usage-named p pid b1 ready few lt1 free1 c h)

    pub bitmap-both : both.bitmap ≡ p.bitmap
    bitmap-both = bitmap-claim (named p pid b1) b2 ∙ bitmap-claim p b1

    module _ (thread_exit entry_point cr3 : ℕ) where
      -- The memory with the record and the stack filled in.
      abbrev pub filled : Memory
      filled = prepare thread_exit entry_point cr3 base (proc p pid b1) both.mem

      stack_fits : base + 4096 < 2 ^ 32
      stack_fits = omega arith

      record_off : OffRecord (proc p pid b1) (base + 4096)
      record_off = omega (arith, blocks_differ)

      -- A word outside the bitmap and the two blocks.
      pub load32-filled :
          (a : ℕ)
          → (a + 4 ≤ p.bitmap) ⊎ (p.bitmap + bitmap_span ≤ a)
          → (a + 4 ≤ (proc p pid b1)) ⊎ ((proc p pid b1) + block_size ≤ a)
          → (a + 4 ≤ base) ⊎ (base + block_size ≤ a)
          → load32 filled a ≡ load32 p.mem a
      load32-filled a off off1 off2 =
          load32-prepare thread_exit entry_point cr3 base (proc p pid b1) both.mem stack_fits
            record_off a (omega arith) (omega arith)
          ∙ load32-claim (named p pid b1) b2 a (omega arith) (omega (arith, bitmap-claim p b1))
          ∙ load32-store32_ne (claim b1 p).mem (proc p pid b1) pid a (omega arith)
          ∙ load32-claim p b1 a (omega arith) off

      -- The bitmap is not written after the allocations.
      pub bitmap-filled :
          (a : ℕ)
          → p.bitmap ≤ a
          → a + 4 ≤ p.bitmap + bitmap_span
          → load32 filled a ≡ load32 both.mem a
      bitmap-filled a ge le =
          load32-prepare thread_exit entry_point cr3 base (proc p pid b1) both.mem stack_fits
            record_off a (omega (arith, ready.free_off b1 lt1 free1))
            (omega (arith, ready.free_off b2 lt2 second_free))

      pub filled-IsPrepared :
          IsPrepared filled thread_exit entry_point cr3 (base + 4096) pid (proc p pid b1)
      filled-IsPrepared =
          prepare-IsPrepared thread_exit entry_point cr3 base (proc p pid b1) both.mem stack_fits
            record_off pid
            (load32-claim (named p pid b1) b2 (proc p pid b1) (omega arith)
                (omega (arith, ready.free_off b1 lt1 free1, bitmap-claim p b1))
              ∙ load32-store32_self (claim b1 p).mem (proc p pid b1) pid)
