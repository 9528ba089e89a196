-- ===== src/Pmm/Fresh.antt =====
-- The bitmap that `pmm_initialize` starts from: every block is in use.
use native.Mathlib.Decide.{dec_lt}
use orbit_os.Base.{ℕ, ◌+◌, ◌-◌, ◌*◌, ◌/◌, ◌%◌, ◌^◌, ◌≤◌, ◌<◌, ◌≡◌, ◌⊎◌, arith}
use orbit_os.Base.{◌∙◌, ap}
use orbit_os.Bits.{bit, bit-next_byte, bit-byte_ones}
use orbit_os.Memory.{Memory, load8, load32, word, load8-lt}
use orbit_os.Strings.Blocks.{load8-memset}
use orbit_os.Pmm.{all_used}
use orbit_os.Pmm.Bitmap.{usage}

-- The four bytes of a word.
module _ (m : Memory) (a : ℕ) where
  byte_0 : load32 m a % 256 ≡ load8 m a
  unfolding load32
  byte_0 = omega (arith, load8-lt m a)

  byte_1 : load32 m a / 256 % 256 ≡ load8 m (a + 1)
  unfolding load32
  byte_1 = omega (arith, load8-lt m a, load8-lt m (a + 1))

  byte_2 : load32 m a / 256 / 256 % 256 ≡ load8 m (a + 2)
  unfolding load32
  byte_2 = omega (arith, load8-lt m a, load8-lt m (a + 1), load8-lt m (a + 2))

  byte_3 : load32 m a / 256 / 256 / 256 % 256 ≡ load8 m (a + 3)
  unfolding load32
  byte_3 = omega (arith, load8-lt m a, load8-lt m (a + 1), load8-lt m (a + 2), load8-lt m (a + 3))

bit-past_byte : (n j : ℕ) → 8 ≤ j → bit n j ≡ bit (n / 256) (j - 8)
bit-past_byte n j h =
    let e : j ≡ 8 + (j - 8) = omega arith in ap (bit n) e ∙ bit-next_byte n (j - 8)

-- Where the byte that holds a bit of the word is 0xFF the bit is one.
bit-load32_ones :
    (m : Memory) (a j : ℕ) → j < 32 → load8 m (a + j / 8) ≡ 0xFF → bit (load32 m a) j ≡ 1
bit-load32_ones m a j h ones = elim (dec_lt j 8) [
  | yes lt ↦ bit-byte_ones w j (byte_0 m a ∙ at a (omega arith)) lt
  | no ge ↦ bit-past_byte w j (omega arith) ∙ elim (dec_lt j 16) [
    | yes lt ↦ bit-byte_ones (w / 256) (j - 8) (byte_1 m a ∙ at (a + 1) (omega arith)) (omega arith)
    | no ge' ↦ bit-past_byte (w / 256) (j - 8) (omega arith) ∙ elim (dec_lt j 24) [
      | yes lt ↦
          bit-byte_ones (w / 256 / 256) (j - 8 - 8) (byte_2 m a ∙ at (a + 2) (omega arith))
            (omega arith)
      | no ge'' ↦
          bit-past_byte (w / 256 / 256) (j - 8 - 8) (omega arith)
          ∙ bit-byte_ones (w / 256 / 256 / 256) (j - 8 - 8 - 8)
              (byte_3 m a ∙ at (a + 3) (omega arith)) (omega arith)
    ]
  ]
]
  where
    w : ℕ
    w = load32 m a

    at : (b : ℕ) → b ≡ a + j / 8 → load8 m b ≡ 0xFF
    at b e = ap (load8 m) e ∙ ones

-- Every block whose bit the bitmap of `blocks / 8` bytes holds is in use at first.
pub usage-all_used :
    (m : Memory) (mbi kernel_end c : ℕ)
    → c < 8 * ((all_used m mbi kernel_end).max_blocks / 8)
    → usage (all_used m mbi kernel_end) c ≡ 1
unfolding all_used usage word
usage-all_used m mbi kernel_end c h =
    let p = all_used m mbi kernel_end in
    bit-load32_ones p.mem (p.bitmap + 4 * (c / 32)) (c % 32) (omega arith) (
      load8-memset m p.bitmap 0xFF (p.max_blocks / 8) (p.bitmap + 4 * (c / 32) + c % 32 / 8)
      ∙ ground arith)

-- The bitmap takes no more than its span, and the size of memory fits 32 bits.
pub max_blocks-all_used :
    (m : Memory) (mbi kernel_end : ℕ) → (all_used m mbi kernel_end).max_blocks < 2 ^ 20
unfolding all_used
max_blocks-all_used m mbi kernel_end = omega arith

-- `memset` fills the bitmap only.
pub load8-all_used :
    (m : Memory) (mbi kernel_end a : ℕ)
    → let p = all_used m mbi kernel_end in
      (a < p.bitmap) ⊎ (p.bitmap + p.max_blocks / 8 ≤ a) → load8 p.mem a ≡ load8 m a
unfolding all_used
load8-all_used m mbi kernel_end a out =
    let p = all_used m mbi kernel_end in
    load8-memset m p.bitmap 0xFF (p.max_blocks / 8) a ∙ ground arith
