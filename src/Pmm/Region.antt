-- ===== src/Pmm/Region.antt =====
-- Freeing one region of the memory map.
use native.Mathlib.Decide.{ℕ_discrete, dec_lt}
use orbit_os.Base.{
  true, false, ℕ, zero, suc, ◌+◌, ◌-◌, ◌*◌, ◌/◌, ◌%◌, ◌^◌, ◌≤◌, ◌<◌, ◌≡◌, refl, arith,
}
use orbit_os.Base.{◌==◌, if◌then◌else◌, ltb, leb, ◌&&◌, ◌∙◌, u32, ◌⊎◌, inl, inr, Bool-cases, some}
use orbit_os.Memory.{load8, load8-set_word_ne}
use orbit_os.Pmm.{Pmm, block_size, release_above, free_region}
use orbit_os.Pmm.Bitmap.{usage}
use orbit_os.Pmm.Alloc.{usage-give_back}

-- The bitmap of 2 ^ 20 blocks takes 2 ^ 17 bytes.
abbrev pub bitmap_span : ℕ
bitmap_span = 2 ^ 17

-- `q` is `p` with the blocks freed that start in `lo ≤ … < hi` and not below `safe`. Its memory
-- differs inside the bitmap only.
pub record IsFreed (safe lo hi : ℕ) (p q : Pmm) : Type 0 where
  pub same_bitmap : q.bitmap ≡ p.bitmap
  pub same_blocks : q.max_blocks ≡ p.max_blocks
  pub usages :
      (c : ℕ)
      → usage q c ≡ (
          if leb lo (c * block_size) && ltb (c * block_size) hi && leb safe (c * block_size)
          then 0
          else usage p c)
  pub outside :
      (a : ℕ) → (a < p.bitmap) ⊎ (p.bitmap + bitmap_span ≤ a) → load8 q.mem a ≡ load8 p.mem a

pub usage-release_above :
    (safe a : ℕ) (p : Pmm) (c : ℕ)
    → usage (release_above safe a p) c
      ≡ (if leb safe a && a / block_size == c then 0 else usage p c)
unfolding release_above
usage-release_above safe a p c = elim (Bool-cases (leb safe a)) [
  | inl above ↦ rw above (usage-give_back p (a / block_size) c)
  | inr below ↦ rw below
]

module _ (safe a : ℕ) (p : Pmm) where
  bitmap-release_above : (release_above safe a p).bitmap ≡ p.bitmap
  unfolding release_above
  bitmap-release_above = ground arith

  blocks-release_above : (release_above safe a p).max_blocks ≡ p.max_blocks
  unfolding release_above
  blocks-release_above = ground arith

  release_above_outside :
      (b : ℕ)
      → a < 2 ^ 32
      → (b < p.bitmap) ⊎ (p.bitmap + bitmap_span ≤ b)
      → load8 (release_above safe a p).mem b ≡ load8 p.mem b
  unfolding release_above
  release_above_outside b small out = elim (Bool-cases (leb safe a)) [
    | inl above ↦
        rw above (load8-set_word_ne p.mem p.bitmap (a / block_size / 32) _ b (omega arith))
    | inr below ↦ rw below
  ]

-- The region is a whole number of blocks from a block boundary on.
module _ (safe addr len : ℕ) (aligned : addr % block_size ≡ 0) (fits : addr + len ≤ 2 ^ 32)
    (short : len ≤ 2 ^ 32 - block_size) where
  usages_step :
      (i c u : ℕ)
      → i % block_size ≡ 0
      → i < len
      → (if leb (addr + (i + block_size)) (c * block_size)
            && ltb (c * block_size) (addr + len)
            && leb safe (c * block_size)
          then 0
          else if leb safe (addr + i) && (addr + i) / block_size == c
          then 0
          else u)
        ≡ (if leb (addr + i) (c * block_size)
              && ltb (c * block_size) (addr + len)
              && leb safe (c * block_size)
            then 0
            else u)
  usages_step i c u step lt = elim (ℕ_discrete ((addr + i) / block_size) c) [
    | yes e ↦ let at : c * block_size ≡ addr + i = omega arith in rw at (ground arith)
    | no ne ↦
        let apart : (c * block_size < addr + i) ⊎ (addr + (i + block_size) ≤ c * block_size) =
          omega arith in
        ground arith
  ]

  IsFreed-release_above :
      (i : ℕ) (p q : Pmm)
      → i % block_size ≡ 0
      → i < len
      → IsFreed safe (addr + (i + block_size)) (addr + len) (release_above safe (addr + i) p) q
      → IsFreed safe (addr + i) (addr + len) p q
  IsFreed-release_above i p q step lt f = record {
    same_bitmap = f.same_bitmap ∙ bitmap-release_above safe (addr + i) p;
    same_blocks = f.same_blocks ∙ blocks-release_above safe (addr + i) p;
    usages = λ c.
        f.usages c
        ∙ rw (usage-release_above safe (addr + i) p c) (usages_step i c (usage p c) step lt);
    outside = λ a out.
        f.outside a (rw (bitmap-release_above safe (addr + i) p) out)
        ∙ release_above_outside safe (addr + i) p a (omega arith) out;
  }

  free_region-suc :
      (fuel i : ℕ) (p : Pmm)
      → i < len
      → i % block_size ≡ 0
      → free_region (suc fuel) safe addr len i p
        ≡ free_region fuel safe addr len (i + block_size) (release_above safe (addr + i) p)
  unfolding free_region
  free_region-suc fuel i p lt step =
      let next : u32 (i + block_size) ≡ i + block_size = omega arith in
      let here : u32 (addr + i) ≡ addr + i = omega arith in
      let more : ltb i len ≡ true = ground arith in rw (more, next, here)

  free_region_done :
      (fuel i : ℕ) (p : Pmm) → len ≤ i → free_region (suc fuel) safe addr len i p ≡ some p
  unfolding free_region
  free_region_done fuel i p ge = let done : ltb i len ≡ false = ground arith in rw done

  -- Nothing is left to free at the end of the region.
  IsFreed-end :
      (i : ℕ) (p : Pmm) → len ≤ i → i % block_size ≡ 0 → IsFreed safe (addr + i) (addr + len) p p
  IsFreed-end i p ge step = record {
    same_bitmap = refl;
    same_blocks = refl;
    usages = λ c. ground arith;
    outside = λ a out. refl;
  }

  -- With one round of fuel for each block that is left, and one more, the loop ends, and it has
  -- freed the blocks of the region that do not start below `safe`.
  pub free_region-IsFreed :
      (fuel i : ℕ) (p : Pmm)
      → i % block_size ≡ 0
      → len ≤ i + fuel * block_size
      → (q : Pmm) × (free_region (suc fuel) safe addr len i p ≡ some q)
        × IsFreed safe (addr + i) (addr + len) p q
  free_region-IsFreed zero i p step enough =
      (p, free_region_done 0 i p (omega arith), IsFreed-end i p (omega arith) step)
  free_region-IsFreed (suc fuel) i p step enough = elim (dec_lt i len) [
    | yes lt ↦
        let p' = release_above safe (addr + i) p in
        let (q, runs, freed) =
          free_region-IsFreed fuel (i + block_size) p' (omega arith) (omega arith) in
        (
          q,
          free_region-suc (suc fuel) i p lt step ∙ runs,
          IsFreed-release_above i p q step lt freed,
        )
    | no ge ↦ (p, free_region_done (suc fuel) i p (omega arith), IsFreed-end i p (omega arith) step)
  ]
