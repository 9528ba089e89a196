-- ===== src/Pmm/Count.antt =====
-- How many blocks of a usage map are in use.
use native.Mathlib.Decide.{ℕ_discrete}
use orbit_os.Base.{ℕ, zero, suc, ◌+◌, ◌≤◌, ◌<◌, ◌≡◌, refl, arith, ◌==◌, if◌then◌else◌}

-- The sum of the first `n` values.
unfoldable pub count_below : (ℕ → ℕ) → ℕ → ℕ
count_below f zero = 0
count_below f (suc n) = count_below f n + f n

pub count_below_ext :
    (f g : ℕ → ℕ) (n : ℕ) → ((c : ℕ) → c < n → f c ≡ g c) → count_below f n ≡ count_below g n
unfolding count_below
count_below_ext f g zero h = refl
count_below_ext f g (suc n) h =
    omega (arith, h n (omega arith), count_below_ext f g n (λ c lt. h c (omega arith)))

-- Changing one value below `n` changes the sum by the difference.
pub count_below_change :
    (f g : ℕ → ℕ) (b v n : ℕ)
    → ((c : ℕ) → g c ≡ (if b == c then v else f c))
    → b < n
    → count_below g n + f b ≡ count_below f n + v
unfolding count_below
count_below_change f g b v zero h lt = absurd (omega arith)
count_below_change f g b v (suc n) h lt = elim (ℕ_discrete b n) [
  | yes e ↦ ground (arith, h b, h n, count_below_ext g f n (λ c below. ground (arith, h c)))
  | no ne ↦ ground (arith, h n, count_below_change f g b v n h (omega arith))
]

pub count_below_bound : (f : ℕ → ℕ) (n : ℕ) → ((c : ℕ) → f c ≤ 1) → count_below f n ≤ n
unfolding count_below
count_below_bound f zero h = omega arith
count_below_bound f (suc n) h = omega (arith, h n, count_below_bound f n h)
