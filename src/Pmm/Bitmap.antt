-- ===== src/Pmm/Bitmap.antt =====
-- The bitmap as a function from blocks to 0 and 1.
use native.Mathlib.Nat.{one-le-pow}
use orbit_os.Base.{ℕ, ◌/◌, ◌%◌, ◌^◌, ◌≤◌, ◌≡◌, arith}
use orbit_os.Base.{◌==◌, if◌then◌else◌, complement, ◌<<◌, bit_and, bit_or}
use orbit_os.Bits.{bit, bit-le-one, bit_and-pow, bit-set_bit, bit-clear_bit}
use orbit_os.Memory.{word, word-set_word}
use orbit_os.Pmm.{Pmm, bitmap_set, bitmap_clear, bitmap_test}

-- 1 where block `b` is in use, 0 where it is free.
unfoldable pub usage : Pmm → ℕ → ℕ
usage p b = bit (word p.mem p.bitmap (b / 32)) (b % 32)

pub usage-le-one : (p : Pmm) (b : ℕ) → usage p b ≤ 1
unfolding usage
usage-le-one p b = bit-le-one (word p.mem p.bitmap (b / 32)) (b % 32)

-- `pmm_bitmap[…] & (1 << …)` is zero exactly where the block is free.
pub bitmap_test-usage : (p : Pmm) (b : ℕ) → (bitmap_test p b == 0) ≡ (usage p b == 0)
unfolding bitmap_test usage
bitmap_test-usage p b =
    let w = word p.mem p.bitmap (b / 32) in
    let pos : 1 ≤ 2 ^ (b % 32) = one-le-pow (b % 32) 2 (omega arith) in
    let one_bit : 1 << (b % 32) ≡ 2 ^ (b % 32) = omega arith in
    rw (one_bit, bit_and-pow (b % 32) w) (grind (arith, bit-le-one w (b % 32)))

-- Setting a block's bit marks it as used and no other.
pub usage-bitmap_set :
    (p : Pmm) (b c : ℕ) → usage (bitmap_set p b) c ≡ (if b == c then 1 else usage p c)
unfolding bitmap_set usage
usage-bitmap_set p b c = ground (
  arith,
  word-set_word p.mem p.bitmap (b / 32) (bit_or w (1 << (b % 32))) (c / 32),
  bit-set_bit w (b % 32) (c % 32) (omega arith) (omega arith),
)
  where
    w : ℕ
    w = word p.mem p.bitmap (b / 32)

-- Clearing a block's bit marks it as free and changes no other.
pub usage-bitmap_clear :
    (p : Pmm) (b c : ℕ) → usage (bitmap_clear p b) c ≡ (if b == c then 0 else usage p c)
unfolding bitmap_clear usage
usage-bitmap_clear p b c = ground (
  arith,
  word-set_word p.mem p.bitmap (b / 32) (bit_and w (complement (1 << (b % 32)))) (c / 32),
  bit-clear_bit w (b % 32) (c % 32) (omega arith) (omega arith),
)
  where
    w : ℕ
    w = word p.mem p.bitmap (b / 32)
