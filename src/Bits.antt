-- ===== src/Bits.antt =====
-- Single bits of a word, and what `&`, `|`, `1 << k` and `~` do to them.
mod Step
use native.Mathlib.Nat.{pow-suc, one-le-pow, pow-le-pow_right}
use orbit_os.Base.{u32, complement, ◌<<◌, Bool, true, false, ◌&&◌}
use Step.{bit_or_step, bit_and_step}
use orbit_os.Base.{ℕ, zero, suc, ◌+◌, ◌-◌, ◌*◌, ◌/◌, ◌%◌, ◌^◌, ◌≤◌, ◌<◌, min, max}
use orbit_os.Base.{bit_and, bit_or, ◌≡◌, refl, sym, ap, ap₂, ◌∙◌, arith, ◌==◌, if◌then◌else◌}

-- Bit `k` of `n`, as 0 or 1.
unfoldable pub bit : ℕ → ℕ → ℕ
bit n zero = n % 2
bit n (suc k) = bit (n / 2) k

pub bit-le-one : (n k : ℕ) → bit n k ≤ 1
unfolding bit
bit-le-one n zero = omega arith
bit-le-one n (suc k) = bit-le-one (n / 2) k

pub zero-bit : (k : ℕ) → bit 0 k ≡ 0
unfolding bit
zero-bit zero = refl
zero-bit (suc k) = zero-bit k

bit_or_half : (a b : ℕ) → bit_or a b / 2 ≡ bit_or (a / 2) (b / 2)
bit_or_half a b = omega (arith, bit_or_step a b)

bit_and_half : (a b : ℕ) → bit_and a b / 2 ≡ bit_and (a / 2) (b / 2)
bit_and_half a b = omega (arith, bit_and_step a b)

pub bit-bit_or : (a b k : ℕ) → bit (bit_or a b) k ≡ max (bit a k) (bit b k)
unfolding bit
bit-bit_or a b zero = omega (arith, bit_or_step a b)
bit-bit_or a b (suc k) = ground (arith, bit_or_half a b, bit-bit_or (a / 2) (b / 2) k)

pub bit-bit_and : (a b k : ℕ) → bit (bit_and a b) k ≡ min (bit a k) (bit b k)
unfolding bit
bit-bit_and a b zero = omega (arith, bit_and_step a b)
bit-bit_and a b (suc k) = ground (arith, bit_and_half a b, bit-bit_and (a / 2) (b / 2) k)

-- `1 << k` has bit `k` and no other.
pub bit-pow : (k j : ℕ) → bit (2 ^ k) j ≡ (if k == j then 1 else 0)
unfolding bit
bit-pow zero zero = refl
bit-pow zero (suc j) = ground (arith, zero-bit j)
bit-pow (suc k) zero = ground (arith, pow-suc 2 k)
bit-pow (suc k) (suc j) = ground (arith, pow-suc 2 k, half, bit-pow k j)
  where
    half : 2 ^ suc k / 2 ≡ 2 ^ k
    half = omega (arith, pow-suc 2 k)

-- Taking an `n`-bit number from `2 ^ n - 1` turns each of its `n` bits over.
pub bit_complement : (n x j : ℕ) → x < 2 ^ n → j < n → bit (2 ^ n - 1 - x) j ≡ 1 - bit x j
unfolding bit
bit_complement zero x j h lt = absurd (omega arith)
bit_complement (suc n) x zero h lt = omega (arith, pow-suc 2 n)
bit_complement (suc n) x (suc j) h lt =
    ground (arith, half, bit_complement n (x / 2) j (omega (arith, pow-suc 2 n)) (omega arith))
  where
    half : (2 ^ suc n - 1 - x) / 2 ≡ 2 ^ n - 1 - x / 2
    half = omega (arith, pow-suc 2 n)

bit_and-zero : (n fuel : ℕ) → n ≤ fuel → bit_and n 0 ≡ 0
bit_and-zero zero fuel h = omega (arith, bit_and_step 0 0)
bit_and-zero (suc n) zero h = absurd (omega arith)
bit_and-zero (suc n) (suc fuel) h =
    omega (arith, bit_and_step (suc n) 0, bit_and-zero (suc n / 2) fuel (omega arith))

-- `n & (1 << k)` is the bit at its place: zero exactly when the bit is.
pub bit_and-pow : (k n : ℕ) → bit_and n (2 ^ k) ≡ bit n k * 2 ^ k
unfolding bit
bit_and-pow zero n = omega (arith, bit_and_step n 1, bit_and-zero (n / 2) (n / 2) (omega arith))
bit_and-pow (suc k) n =
    let half : 2 ^ suc k / 2 ≡ 2 ^ k = omega (arith, pow-suc 2 k) in
    let even : 2 ^ suc k % 2 ≡ 0 = omega (arith, pow-suc 2 k) in
    let same : bit_and (n / 2) (2 ^ suc k / 2) ≡ bit_and (n / 2) (2 ^ k) =
      ap (bit_and (n / 2)) half in
    let scaled : bit (n / 2) k * 2 ^ suc k ≡ bit (n / 2) k * 2 ^ k * 2 =
      omega (arith, ap (λ (t : ℕ). bit (n / 2) k * t) (pow-suc 2 k)) in
    omega (arith, bit_and_step n (2 ^ suc k), same, scaled, bit_and-pow k (n / 2))

bit_or-zero : (n fuel : ℕ) → n ≤ fuel → bit_or n 0 ≡ n
bit_or-zero zero fuel h = omega (arith, bit_or_step 0 0)
bit_or-zero (suc n) zero h = absurd (omega arith)
bit_or-zero (suc n) (suc fuel) h =
    omega (arith, bit_or_step (suc n) 0, bit_or-zero (suc n / 2) fuel (omega arith))

shift-suc : (q k : ℕ) → q * 2 ^ suc k ≡ q * 2 ^ k * 2
shift-suc q k = omega (arith, ap (λ (t : ℕ). q * t) (pow-suc 2 k))

-- `(q << k) | r` is a sum where `r` has `k` bits.
pub bit_or-shift : (k q r : ℕ) → r < 2 ^ k → bit_or (q * 2 ^ k) r ≡ q * 2 ^ k + r
bit_or-shift zero q r h =
    let nil : r ≡ 0 = omega arith in
    rw nil (omega (arith, bit_or-zero (q * 1) (q * 1) (omega arith)))
bit_or-shift (suc k) q r h =
    let half : q * 2 ^ suc k / 2 ≡ q * 2 ^ k = omega (arith, shift-suc q k) in
    let same : bit_or (q * 2 ^ suc k / 2) (r / 2) ≡ bit_or (q * 2 ^ k) (r / 2) =
      ap (λ t. bit_or t (r / 2)) half in
    let ih = bit_or-shift k q (r / 2) (omega (arith, pow-suc 2 k)) in
    omega (arith, bit_or_step (q * 2 ^ suc k) r, shift-suc q k, same, ih)

bit_or_swap : (fuel a b : ℕ) → a ≤ fuel → b ≤ fuel → bit_or a b ≡ bit_or b a
bit_or_swap zero a b ha hb =
    let ea : a ≡ 0 = omega arith in let eb : b ≡ 0 = omega arith in rw (ea, eb)
bit_or_swap (suc fuel) a b ha hb = omega (
  arith,
  bit_or_step a b,
  bit_or_step b a,
  bit_or_swap fuel (a / 2) (b / 2) (omega arith) (omega arith),
)

pub bit_or_comm : (a b : ℕ) → bit_or a b ≡ bit_or b a
bit_or_comm a b = bit_or_swap (a + b) a b (omega arith) (omega arith)

mask_fields : (k q r : ℕ) → r < 2 ^ k → bit_and (q * 2 ^ k + r) (2 ^ k - 1) ≡ r
mask_fields zero q r h = omega (arith, bit_and-zero (q * 2 ^ 0 + r) (q * 2 ^ 0 + r) (omega arith))
mask_fields (suc k) q r h =
    let n : ℕ = q * 2 ^ suc k + r in
    let mask_half : (2 ^ suc k - 1) / 2 ≡ 2 ^ k - 1 = omega (arith, pow-suc 2 k, one-le-pow k 2) in
    let odd : (2 ^ suc k - 1) % 2 ≡ 1 = omega (arith, pow-suc 2 k, one-le-pow k 2) in
    let half : n / 2 ≡ q * 2 ^ k + r / 2 = omega (arith, shift-suc q k) in
    let low : n % 2 ≡ r % 2 = omega (arith, shift-suc q k) in
    let same : bit_and (n / 2) ((2 ^ suc k - 1) / 2) ≡ bit_and (q * 2 ^ k + r / 2) (2 ^ k - 1) =
      ap₂ bit_and half mask_half in
    let ih = mask_fields k q (r / 2) (omega (arith, pow-suc 2 k)) in
    omega (arith, bit_and_step n (2 ^ suc k - 1), same, odd, low, ih)

-- `n & (2 ^ k - 1)` is the remainder by `2 ^ k`.
pub bit_and-mask : (k n : ℕ) → bit_and n (2 ^ k - 1) ≡ n % 2 ^ k
bit_and-mask k n =
    let pos : 0 < 2 ^ k = one-le-pow k 2 (omega arith) in
    let parts : n / 2 ^ k * 2 ^ k + n % 2 ^ k ≡ n = omega arith in
    ap (λ t. bit_and t (2 ^ k - 1)) (sym parts)
    ∙ mask_fields k (n / 2 ^ k) (n % 2 ^ k) (omega arith)

-- `n & (q << k)` leaves the low `k` bits out.
pub bit_and-high :
    (k h r q : ℕ) → r < 2 ^ k → bit_and (h * 2 ^ k + r) (q * 2 ^ k) ≡ bit_and h q * 2 ^ k
bit_and-high zero h r q lt =
    let nil : r ≡ 0 = omega arith in
    let eh : h * 2 ^ 0 + 0 ≡ h = omega arith in
    let eq : q * 2 ^ 0 ≡ q = omega arith in rw (nil, eh, eq) (omega arith)
bit_and-high (suc k) h r q lt =
    let n : ℕ = h * 2 ^ suc k + r in
    let half : n / 2 ≡ h * 2 ^ k + r / 2 = omega (arith, shift-suc h k) in
    let half_q : q * 2 ^ suc k / 2 ≡ q * 2 ^ k = omega (arith, shift-suc q k) in
    let same : bit_and (n / 2) (q * 2 ^ suc k / 2) ≡ bit_and (h * 2 ^ k + r / 2) (q * 2 ^ k) =
      ap₂ bit_and half half_q in
    let ih = bit_and-high k h (r / 2) q (omega (arith, pow-suc 2 k)) in
    omega
      (arith, bit_and_step n (q * 2 ^ suc k), same, ih, shift-suc q k, shift-suc (bit_and h q) k)

-- `n | 1`.
pub bit_or-one : (n : ℕ) → bit_or n 1 ≡ n / 2 * 2 + 1
bit_or-one n = omega (arith, bit_or_step n 1, bit_or-zero (n / 2) (n / 2) (omega arith))

-- A bit below the width survives the cut to the width.
pub bit-mod : (w n j : ℕ) → j < w → bit (n % 2 ^ w) j ≡ bit n j
bit-mod w n j h =
    let ones : bit (2 ^ w - 1) j ≡ 1 =
      ap (λ t. bit t j) (let e : 2 ^ w - 1 ≡ 2 ^ w - 1 - 0 = omega arith in e)
      ∙ omega (arith, bit_complement w 0 j (one-le-pow w 2 (omega arith)) h, zero-bit j) in
    ap (λ t. bit t j) (sym (bit_and-mask w n))
    ∙ omega (arith, bit-bit_and n (2 ^ w - 1) j, ones, bit-le-one n j)

pub pow-lt-word : (k : ℕ) → k < 32 → 2 ^ k < 2 ^ 32
pow-lt-word k h =
    omega (arith, pow-le-pow_right {n = 2} (omega arith) {i = k} {j = 31} (omega arith))

-- Bits of a 32-bit word after `w | (1 << k)` and `w & ~(1 << k)`.
module _ (w k j : ℕ) (hk : k < 32) (hj : j < 32) where
  pub bit-set_bit : bit (u32 (bit_or w (1 << k))) j ≡ (if k == j then 1 else bit w j)
  bit-set_bit =
      let one_bit : 1 << k ≡ 2 ^ k = omega arith in
      rw (one_bit, bit-mod 32 (bit_or w (2 ^ k)) j hj)
        (ground (arith, bit-bit_or w (2 ^ k) j, bit-pow k j, bit-le-one w j))

  pub bit-clear_bit :
      bit (u32 (bit_and w (complement (1 << k)))) j ≡ (if k == j then 0 else bit w j)
  bit-clear_bit =
      let one_bit : 1 << k ≡ 2 ^ k = omega arith in
      rw (one_bit, bit-mod 32 (bit_and w (complement (2 ^ k))) j hj)
        (ground (
          arith,
          bit-bit_and w (complement (2 ^ k)) j,
          bit_complement 32 (2 ^ k) j (pow-lt-word k hk) hj,
          bit-pow k j,
          bit-le-one w j,
        ))

-- A bit of a byte further up is a bit of the number shifted down.
pub bit-next_byte : (n j : ℕ) → bit n (8 + j) ≡ bit (n / 256) j
unfolding bit
bit-next_byte n j =
    let e : 8 + j ≡ suc (suc (suc (suc (suc (suc (suc (suc j))))))) = omega arith in
    ap (bit n) e ∙ ap (λ t. bit t j) (omega arith)

-- All bits of 0xFF are ones.
pub bit-byte_ones : (n j : ℕ) → n % 256 ≡ 0xFF → j < 8 → bit n j ≡ 1
bit-byte_ones n j ones h =
    sym (bit-mod 8 n j h)
    ∙ ap (λ t. bit t j) ones
    ∙ omega (arith, bit_complement 8 0 j (omega arith) h, zero-bit j)

-- Over a small range every value is checked by evaluation.
unfoldable pub all_below : ℕ → (ℕ → Bool) → Bool
all_below zero p = true
all_below (suc n) p = p n && all_below n p

pub all_below_lem : (n : ℕ) (p : ℕ → Bool) (x : ℕ) → all_below n p ≡ true → x < n → p x ≡ true
unfolding all_below
all_below_lem zero p x h lt = absurd (omega arith)
all_below_lem (suc n) p x h lt = ground (arith, all_below_lem n p x)
