-- ===== src/Pmm/Alloc.antt =====
-- `pmm_alloc_block` and `pmm_free_block` against the usage map.
use native.Mathlib.Decide.{ℕ_discrete}
use orbit_os.Base.{ℕ, zero, suc, ◌+◌, ◌*◌, ◌≤◌, ◌<◌, ◌≡◌, refl, arith}
use orbit_os.Base.{◌==◌, if◌then◌else◌, u32, ◌⊎◌, inl, inr, Bool-cases, true, false}
use orbit_os.Pmm.{
  Pmm, block_size, claim, give_back, bitmap_set, bitmap_clear, alloc_from, alloc_block,
}
use orbit_os.Pmm.Bitmap.{
  usage, usage-le-one, bitmap_test-usage, usage-bitmap_set, usage-bitmap_clear,
}

pub usage-claim : (p : Pmm) (b c : ℕ) → usage (claim b p) c ≡ (if b == c then 1 else usage p c)
unfolding claim usage bitmap_set
usage-claim p b c = usage-bitmap_set p b c

pub usage-give_back :
    (p : Pmm) (b c : ℕ) → usage (give_back b p) c ≡ (if b == c then 0 else usage p c)
unfolding give_back usage bitmap_clear
usage-give_back p b c = usage-bitmap_clear p b c

-- Every block from `lo` up to `hi` is in use.
abbrev pub AllUsed : Pmm → ℕ → ℕ → Type 0
AllUsed p lo hi = (c : ℕ) → lo ≤ c → c < hi → usage p c ≡ 1

-- The scan stops at the first free block, or passes over blocks in use only.
abbrev pub Scanned : Pmm → ℕ → ℕ → ℕ × Pmm → Type 0
Scanned p lo hi out =
    ((b : ℕ) × (lo ≤ b)
      × (b < hi)
      × (usage p b ≡ 0)
      × AllUsed p lo b
      × (out ≡ (u32 (b * block_size), claim b p)))
    ⊎ (AllUsed p lo hi × (out ≡ (0, p)))

alloc_from-free :
    (left i : ℕ) (p : Pmm)
    → (usage p i == 0) ≡ true
    → alloc_from (suc left) i p ≡ (u32 (i * block_size), claim i p)
unfolding alloc_from
alloc_from-free left i p h = rw (bitmap_test-usage p i, h)

alloc_from-used :
    (left i : ℕ) (p : Pmm)
    → (usage p i == 0) ≡ false
    → alloc_from (suc left) i p ≡ alloc_from left (i + 1) p
unfolding alloc_from
alloc_from-used left i p h = rw (bitmap_test-usage p i, h)

AllUsed-extend : (p : Pmm) (lo hi : ℕ) → usage p lo ≡ 1 → AllUsed p (lo + 1) hi → AllUsed p lo hi
AllUsed-extend p lo hi e h c ge lt = elim (ℕ_discrete lo c) [
  | yes same ↦ rw (← same) e
  | no differ ↦ h c (omega arith) lt
]

alloc_from-Scanned :
    (left i hi : ℕ) (p : Pmm) → i + left ≡ hi → Scanned p i hi (alloc_from left i p)
alloc_from-Scanned zero i hi p e = inr (λ c ge lt. absurd (omega arith), unfold alloc_from in refl)
alloc_from-Scanned (suc left) i hi p e = elim (Bool-cases (usage p i == 0)) [
  | inl free ↦ inl (
    i,
    omega arith,
    omega arith,
    ground arith,
    λ c ge lt. absurd (omega arith),
    alloc_from-free left i p free,
  )
  | inr busy ↦
      let here : usage p i ≡ 1 = ground (arith, usage-le-one p i) in
      rw (alloc_from-used left i p busy)
        (widen here (alloc_from-Scanned left (i + 1) hi p (omega arith)))
]
  where
    widen :
        usage p i ≡ 1
        → Scanned p (i + 1) hi (alloc_from left (i + 1) p)
        → Scanned p i hi (alloc_from left (i + 1) p)
    widen here (inl (b, ge, lt, free, below, eq)) =
        inl (b, omega arith, lt, free, AllUsed-extend p i b here below, eq)
    widen here (inr (all, eq)) = inr (AllUsed-extend p i hi here all, eq)

-- `pmm_alloc_block` claims the first free block and returns its address, or, where every block is
-- in use, returns 0 and changes nothing.
pub alloc_block-Scanned : (p : Pmm) → Scanned p 0 p.max_blocks (alloc_block p)
unfolding alloc_block
alloc_block-Scanned p = alloc_from-Scanned p.max_blocks 0 p.max_blocks p (omega arith)
