-- ===== src/Memory.antt =====
-- Physical memory: the flat byte store that the C code reaches through its pointers.
-- Before paging and under the identity map a pointer is a physical address, and the machine is
-- little-endian.
use orbit_os.Base.{ℕ, ◌+◌, ◌*◌, ◌^◌, ◌≤◌, ◌<◌, ◌≡◌, ◌⊎◌, arith}
use orbit_os.Base.{◌==◌, if◌then◌else◌, u8, u32, ◌>>◌}

-- A cell holds a byte: it is read modulo 256.
abbrev pub Memory : Type 0
Memory = ℕ → ℕ

unfoldable pub load8 : Memory → ℕ → ℕ
load8 m a = u8 (m a)

unfoldable pub store8 : Memory → ℕ → ℕ → Memory
store8 m a v = λ b. if b == a then u8 v else m b

unfoldable pub load32 : Memory → ℕ → ℕ
load32 m a =
    load8 m a + load8 m (a + 1) * 2 ^ 8 + load8 m (a + 2) * 2 ^ 16 + load8 m (a + 3) * 2 ^ 24

unfoldable pub store32 : Memory → ℕ → ℕ → Memory
store32 m a v =
    store8 (store8 (store8 (store8 m a v) (a + 1) (v >> 8)) (a + 2) (v >> 16)) (a + 3) (v >> 24)

pub load8-lt : (m : Memory) (a : ℕ) → load8 m a < 256
unfolding load8
load8-lt m a = omega arith

pub load32-lt : (m : Memory) (a : ℕ) → load32 m a < 2 ^ 32
unfolding load32
load32-lt m a =
    omega (arith, load8-lt m a, load8-lt m (a + 1), load8-lt m (a + 2), load8-lt m (a + 3))

pub load8-store8 :
    (m : Memory) (a v b : ℕ) → load8 (store8 m a v) b ≡ (if b == a then u8 v else load8 m b)
unfolding load8 store8
load8-store8 m a v b = ground arith

pub load8-store32_ne :
    (m : Memory) (a v b : ℕ) → (b < a) ⊎ (a + 4 ≤ b) → load8 (store32 m a v) b ≡ load8 m b
unfolding load8 store8 store32
load8-store32_ne m a v b h = ground arith

-- A word reads back as it was written, cut to 32 bits.
pub load32-store32_self : (m : Memory) (a v : ℕ) → load32 (store32 m a v) a ≡ u32 v
unfolding load8 store8 load32 store32
load32-store32_self m a v = ground arith

-- A write does not reach a word beside it.
pub load32-store32_ne :
    (m : Memory) (a v b : ℕ) → (b + 4 ≤ a) ⊎ (a + 4 ≤ b) → load32 (store32 m a v) b ≡ load32 m b
unfolding load32
load32-store32_ne m a v b h = ground (
  arith,
  load8-store32_ne m a v b,
  load8-store32_ne m a v (b + 1),
  load8-store32_ne m a v (b + 2),
  load8-store32_ne m a v (b + 3),
)

pub load32-same :
    (m m' : Memory) (a : ℕ)
    → ((b : ℕ) → a ≤ b → b < a + 4 → load8 m' b ≡ load8 m b)
    → load32 m' a ≡ load32 m a
unfolding load32
load32-same m m' a same = omega (
  arith,
  same a (omega arith) (omega arith),
  same (a + 1) (omega arith) (omega arith),
  same (a + 2) (omega arith) (omega arith),
  same (a + 3) (omega arith) (omega arith),
)

-- Element `i` of the `uint32_t` array at `base`.
unfoldable pub word : Memory → ℕ → ℕ → ℕ
word m base i = load32 m (base + 4 * i)

unfoldable pub set_word : Memory → ℕ → ℕ → ℕ → Memory
set_word m base i v = store32 m (base + 4 * i) v

pub word-lt : (m : Memory) (base i : ℕ) → word m base i < 2 ^ 32
unfolding word
word-lt m base i = load32-lt m (base + 4 * i)

pub word-set_word :
    (m : Memory) (base i v j : ℕ)
    → word (set_word m base i v) base j ≡ (if j == i then u32 v else word m base j)
unfolding word set_word
word-set_word m base i v j = ground (
  arith,
  load32-store32_self m (base + 4 * i) v,
  load32-store32_ne m (base + 4 * i) v (base + 4 * j),
)

pub load8-set_word_ne :
    (m : Memory) (base i v b : ℕ)
    → (b < base + 4 * i) ⊎ (base + 4 * i + 4 ≤ b)
    → load8 (set_word m base i v) b ≡ load8 m b
unfolding set_word
load8-set_word_ne m base i v b h = load8-store32_ne m (base + 4 * i) v b h
