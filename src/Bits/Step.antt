-- ===== src/Bits/Step.antt =====
-- The lowest digit of `&` and `|`, from the digit recursion that the native operations stand for.
use Prim.Native.Nat.{digits, bit_and-bitwise, bit_or-bitwise}
use orbit_os.Base.{ℕ, zero, suc, ◌+◌, ◌*◌, ◌/◌, ◌%◌, ◌≤◌, min, max, bit_and, bit_or}
use orbit_os.Base.{◌≡◌, refl, ap, arith}

-- The recursion counts down a fuel: any fuel that is at least the first number gives one result.
module _ (stop : ℕ → ℕ) (op : ℕ → ℕ → ℕ) where
  abbrev run : ℕ → ℕ → ℕ → ℕ
  run = digits stop op

  any_fuel : (k l x y : ℕ) → x ≤ k → x ≤ l → run k x y ≡ run l x y
  any_fuel zero zero zero y hk hl = refl
  any_fuel zero (suc l) zero y hk hl = refl
  any_fuel (suc k) zero zero y hk hl = refl
  any_fuel (suc k) (suc l) zero y hk hl = refl
  any_fuel zero l (suc x) y hk hl = absurd (omega arith)
  any_fuel (suc k) zero (suc x) y hk hl = absurd (omega arith)
  any_fuel (suc k) (suc l) (suc x) y hk hl =
      ap (λ t. t * 2 + op (suc x % 2) (y % 2))
        (any_fuel k l (suc x / 2) (y / 2) (omega arith) (omega arith))

  run-suc :
      (x y : ℕ)
      → run (suc x) (suc x) y ≡ run (suc x / 2) (suc x / 2) (y / 2) * 2 + op (suc x % 2) (y % 2)
  run-suc x y =
      ap (λ t. t * 2 + op (suc x % 2) (y % 2))
        (any_fuel x (suc x / 2) (suc x / 2) (y / 2) (omega arith) (omega arith))

pub bit_and_step : (x y : ℕ) → bit_and x y ≡ bit_and (x / 2) (y / 2) * 2 + min (x % 2) (y % 2)
bit_and_step zero y = omega (arith, bit_and-bitwise 0 y, bit_and-bitwise 0 (y / 2))
bit_and_step (suc x) y = omega (
  arith,
  bit_and-bitwise (suc x) y,
  bit_and-bitwise (suc x / 2) (y / 2),
  run-suc (λ b. zero) min x y,
)

pub bit_or_step : (x y : ℕ) → bit_or x y ≡ bit_or (x / 2) (y / 2) * 2 + max (x % 2) (y % 2)
bit_or_step zero y = omega (arith, bit_or-bitwise 0 y, bit_or-bitwise 0 (y / 2))
bit_or_step (suc x) y =
    omega (
      arith,
      bit_or-bitwise (suc x) y,
      bit_or-bitwise (suc x / 2) (y / 2),
      run-suc (λ b. b) max x y,
    )
