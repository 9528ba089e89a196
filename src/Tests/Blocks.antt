-- ===== src/Tests/Blocks.antt =====
-- The physical memory manager on small memories.
use orbit_os.Base.{ℕ, zero, suc, ◌+◌, ◌*◌, ◌≡◌, ◌≢◌, ◌↔◌, refl, arith}
use orbit_os.Bits.{bit}
use orbit_os.Memory.{Memory, load8, store8, load32, store32, word}
use orbit_os.Multiboot
use orbit_os.Pmm.{Pmm, block_size, alloc_from, bitmap_test, alloc_block, free_block, all_used}
use orbit_os.Pmm.{get_used_memory, get_free_memory, get_total_memory}
use orbit_os.Pmm.Bitmap.{usage}
use orbit_os.Pmm.Count.{count_below}
use orbit_os.Pmm.Alloc.{AllUsed, Scanned, alloc_block-Scanned}
use orbit_os.Pmm.Laws.{
  IsValid, memory_statistics, alloc_block-IsValid, free_block-IsValid, free_block-alloc_block,
  alloc_block-eq_zero_iff,
}
use orbit_os.Pmm.Walk.{MapEntry}

-- Eight blocks, of which block 3 is free.
abbrev sample : Pmm
sample = record {
  mem = store32 (λ a. 0) 0x1000 0xF7;
  bitmap = 0x1000;
  max_blocks = 8;
  used_blocks = 7;
}

sample-IsValid : IsValid sample
unfolding usage word load32 load8 store32 store8 bit count_below
sample-IsValid = record { blocks_fit = omega arith; counted = refl }

block_3_free : usage sample 3 ≡ 0
unfolding usage word load32 load8 store32 store8 bit
block_3_free = refl

block_0_used : usage sample 0 ≡ 1
unfolding usage word load32 load8 store32 store8 bit
block_0_used = refl

below_3_used : AllUsed sample 0 3
unfolding usage word load32 load8 store32 store8 bit
below_3_used zero ge lt = refl
below_3_used (suc zero) ge lt = refl
below_3_used (suc (suc zero)) ge lt = refl
below_3_used (suc (suc (suc c))) ge lt = absurd (omega arith)

first_address : (alloc_block sample).0 ≡ 0x3000
unfolding alloc_block alloc_from bitmap_test word load32 load8 store32 store8
first_address = refl

first_success : (alloc_block sample).0 ≢ 0
first_success e = omega (arith, first_address)

alloc_block-Scanned_example : Scanned sample 0 8 (alloc_block sample)
alloc_block-Scanned_example = alloc_block-Scanned sample

alloc_block-IsValid_example : IsValid (alloc_block sample).1
alloc_block-IsValid_example = alloc_block-IsValid sample sample-IsValid

free_block-IsValid_example : IsValid (free_block 0x5000 sample)
free_block-IsValid_example = free_block-IsValid sample 0x5000 (omega arith) sample-IsValid

free_block-alloc_block_example :
    ((c : ℕ) → usage (free_block (alloc_block sample).0 (alloc_block sample).1) c ≡ usage sample c)
    × ((free_block (alloc_block sample).0 (alloc_block sample).1).used_blocks ≡ 7)
free_block-alloc_block_example =
    free_block-alloc_block sample 3 sample-IsValid (omega arith) block_3_free below_3_used

alloc_block-eq_zero_iff_example : ((alloc_block sample).0 ≡ 0) ↔ AllUsed sample 0 8
alloc_block-eq_zero_iff_example = alloc_block-eq_zero_iff sample sample-IsValid block_0_used

memory_statistics_example :
    (get_used_memory sample ≡ count_below (usage sample) 8 * block_size)
    × (get_used_memory sample + get_free_memory sample ≡ get_total_memory sample)
    × (get_total_memory sample ≡ 8 * block_size)
memory_statistics_example = memory_statistics sample sample-IsValid (omega arith)

-- A boot with 256 KB of memory, all of it available, and the kernel below 0x1000.
abbrev info : ℕ
info = 0x30000

abbrev boot_memory : Memory
boot_memory =
    store32
      (store32
        (store32
          (store32
            (store32 (store32 (store32 (store32 (λ a. 0) info 64) (info + 8) 256) (info + 44) 24)
              (info + 48) 0x30100)
            0x30100 20)
          0x30104 0)
        0x3010C 0x40000)
      0x30114 1

abbrev boot : Pmm
boot = all_used boot_memory info 0x1000

abbrev whole : MapEntry
whole = record { size = 20; addr = 0; len = 0x40000; kind = 1 }
