-- ===== src/Pmm/Ready.antt =====
-- The blocks and the bitmap apart.
use orbit_os.Base.{ℕ, ◌+◌, ◌*◌, ◌/◌, ◌%◌, ◌^◌, ◌≤◌, ◌<◌, ◌≡◌, ◌⊎◌, refl, arith, ap}
use orbit_os.Bits.{bit}
use orbit_os.Memory.{load32, load8, word, load8-set_word_ne, load32-same}
use orbit_os.Pmm.{Pmm, block_size, claim, bitmap_set}
use orbit_os.Pmm.Bitmap.{usage}
use orbit_os.Pmm.Region.{bitmap_span}

-- A page beside the bitmap.
abbrev pub OffBitmap : Pmm → ℕ → Type 0
OffBitmap p page = (page + 4096 ≤ p.bitmap) ⊎ (p.bitmap + bitmap_span ≤ page)

-- What a client that writes into its blocks needs: block 0 is in use, and no free block overlaps the bitmap.
pub record IsReady (p : Pmm) : Type 0 where
  pub blocks_fit : p.max_blocks ≤ 2 ^ 20
  pub zero_used : usage p 0 ≡ 1
  pub free_off : (b : ℕ) → b < p.max_blocks → usage p b ≡ 0 → OffBitmap p (b * block_size)

-- The usage of a block is read from the bitmap.
pub usage-same :
    (p q : Pmm) (c : ℕ)
    → q.bitmap ≡ p.bitmap
    → ((a : ℕ) → p.bitmap ≤ a → a < p.bitmap + bitmap_span → load8 q.mem a ≡ load8 p.mem a)
    → c < 2 ^ 20
    → usage q c ≡ usage p c
unfolding usage word
usage-same p q c e same h = rw e (
    ap (λ w. bit w (c % 32))
      (load32-same p.mem q.mem (p.bitmap + 4 * (c / 32))
        (λ b ge lt. same b (omega arith) (omega arith))))

-- Claiming a block writes the bitmap only.
pub load8-claim :
    (p : Pmm) (b a : ℕ)
    → b < 2 ^ 20
    → (a < p.bitmap) ⊎ (p.bitmap + bitmap_span ≤ a)
    → load8 (claim b p).mem a ≡ load8 p.mem a
unfolding claim bitmap_set
load8-claim p b a h out = load8-set_word_ne p.mem p.bitmap (b / 32) _ a (omega arith)

pub bitmap-claim : (p : Pmm) (b : ℕ) → (claim b p).bitmap ≡ p.bitmap
unfolding claim bitmap_set
bitmap-claim p b = refl

-- The same by words.
pub usage-same_words :
    (p q : Pmm) (c : ℕ)
    → q.bitmap ≡ p.bitmap
    → ((a : ℕ) → p.bitmap ≤ a → a + 4 ≤ p.bitmap + bitmap_span → load32 q.mem a ≡ load32 p.mem a)
    → c < 2 ^ 20
    → usage q c ≡ usage p c
unfolding usage word
usage-same_words p q c e same h =
    rw e (ap (λ w. bit w (c % 32)) (same (p.bitmap + 4 * (c / 32)) (omega arith) (omega arith)))

pub load32-claim :
    (p : Pmm) (b a : ℕ)
    → b < 2 ^ 20
    → (a + 4 ≤ p.bitmap) ⊎ (p.bitmap + bitmap_span ≤ a)
    → load32 (claim b p).mem a ≡ load32 p.mem a
load32-claim p b a h out =
    load32-same p.mem (claim b p).mem a (λ c ge lt. load8-claim p b c h (omega arith))
