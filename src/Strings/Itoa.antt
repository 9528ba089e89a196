-- ===== src/Strings/Itoa.antt =====
-- `itoa`: the text of a number.
use native.Mathlib.Nat.{zero-div, zero-mod, pow-zero, pow-suc, pow-le-pow_right}
use mathlib.Core.Path.{subst}
use orbit_os.Base.{
  ℕ, zero, suc, ◌+◌, ◌-◌, ◌/◌, ◌%◌, ◌^◌, ◌≤◌, ◌<◌, ◌≡◌, ◌≢◌, ◌⊎◌, ◌∙◌, refl, arith, ap, inl, inr,
  some,
}
use mathlib.Core.Option
use orbit_os.Base.{◌==◌, ltb, true, false, Bool}
use orbit_os.Base.Int.{ℤ, pos, negsuc}
use orbit_os.Memory.{Memory, load8, store8, load8-store8}
use orbit_os.Strings.{reverse, itoa, itoa_digits, itoa_finish, itoa_nonzero, negate}
use orbit_os.Strings.Blocks.{load8-store8_ne}
use orbit_os.Strings.Reverse.{load8-reverse, load8-reverse_outside}
use orbit_os.Strings.Numeral.{numeral, HasDigits, itoa_digits-HasDigits}

-- The `k` digits of `n` stand at `str`, the first one first, without a zero in front unless there is
-- one digit only, and a zero byte ends them.
pub record IsNumeral (m : Memory) (str base n k : ℕ) : Type 0 where
  pub some_digit : 1 ≤ k
  pub digit : (j : ℕ) → j < k → load8 m (str + j) ≡ numeral (n / base ^ (k - 1 - j) % base)
  pub ends : load8 m (str + k) ≡ 0
  pub all_of_them : n < base ^ k
  pub no_more : (k ≡ 1) ⊎ (base ^ (k - 1) ≤ n)

-- With a minus sign in front of a negative number.
abbrev pub IsPrinted : Memory → ℕ → ℕ → ℤ → ℕ → Type 0
IsPrinted m str base (pos n) k = IsNumeral m str base n k
IsPrinted m str base (negsuc n) k = (load8 m str ≡ b'-') × IsNumeral m (str + 1) base (suc n) k

-- An `int` that `itoa` prints: negative only in base 10, and not -2 ^ 31.
abbrev pub IsPrintable : ℕ → ℤ → Type 0
IsPrintable base (pos n) = n < 2 ^ 31
IsPrintable base (negsuc n) = (suc n < 2 ^ 31) × (base ≡ 10)

-- Digits that stand in the reverse order at `a` stand in order at `str`.
HasDigits-IsNumeral :
    (m m' : Memory) (a str base n k : ℕ)
    → n ≢ 0
    → HasDigits m a base n k
    → ((j : ℕ) → j < k → load8 m' (str + j) ≡ load8 m (a + (k - 1 - j)))
    → load8 m' (str + k) ≡ 0
    → IsNumeral m' str base n k
HasDigits-IsNumeral m m' a str base n zero real h mirrored ends =
    let none_left : n < 1 = subst (λ p. n < p) (pow-zero base) h.all_of_them in
    absurd (real (omega (arith, none_left)))
HasDigits-IsNumeral m m' a str base n (suc k) real h mirrored ends = record {
  some_digit = omega arith;
  digit = λ j lt. mirrored j lt ∙ h.digit (suc k - 1 - j) (omega arith);
  ends = ends;
  all_of_them = h.all_of_them;
  no_more = elim h.no_more [
    | inl z ↦ absurd (omega (arith, z))
    | inr (j, e, le) ↦ let before : suc k - 1 ≡ j = omega (arith, e) in inr (rw before le)
  ];
}

itoa_finish-IsNumeral :
    (m : Memory) (str base n k : ℕ)
    → n ≢ 0
    → HasDigits m str base n k
    → IsNumeral (itoa_finish false str (m, k)) str base n k
unfolding itoa_finish
itoa_finish-IsNumeral m str base n k real h =
    let ended = store8 m (str + k) 0 in
    HasDigits-IsNumeral m (reverse ended str k) str str base n k real h
      (λ j lt.
        load8-reverse ended str k j lt
        ∙ load8-store8_ne m (str + k) 0 (str + (k - 1 - j)) (omega arith))
      (load8-reverse_outside ended str k (str + k) (inr (omega arith))
        ∙ ground (arith, load8-store8 m (str + k) 0 (str + k)))

itoa_finish-minus :
    (m : Memory) (str base n k : ℕ)
    → n ≢ 0
    → HasDigits m str base n k
    → (load8 (itoa_finish true str (m, k)) str ≡ b'-')
      × IsNumeral (itoa_finish true str (m, k)) (str + 1) base n k
unfolding itoa_finish
itoa_finish-minus m str base n k real h =
    let signed = store8 m (str + k) b'-' in
    let ended = store8 signed (str + (k + 1)) 0 in
    let printed = reverse ended str (k + 1) in
    let kept : (b : ℕ) → b < k → load8 ended (str + b) ≡ load8 m (str + b) = λ b lt.
      load8-store8_ne signed (str + (k + 1)) 0 (str + b) (omega arith)
      ∙ load8-store8_ne m (str + k) b'-' (str + b) (omega arith) in
    let sign : load8 ended (str + k) ≡ b'-' =
      load8-store8_ne signed (str + (k + 1)) 0 (str + k) (omega arith)
      ∙ ground (arith, load8-store8 m (str + k) b'-' (str + k)) in
    let first : load8 printed (str + 0) ≡ load8 ended (str + (k + 1 - 1 - 0)) =
      load8-reverse ended str (k + 1) 0 (omega arith) in
    let place : str + 0 ≡ str = omega arith in
    let last : k + 1 - 1 - 0 ≡ k = omega arith in
    (
      rw (place, last) at first ∙ sign,
      HasDigits-IsNumeral m printed str (str + 1) base n k real h
          (λ j lt.
            let here : str + (1 + j) ≡ str + 1 + j = omega arith in
            let there : k + 1 - 1 - (1 + j) ≡ k - 1 - j = omega arith in
            let moved = load8-reverse ended str (k + 1) (1 + j) (omega arith) in
            rw (here, there) at moved ∙ kept (k - 1 - j) (omega arith))
          (let behind : str + 1 + k ≡ str + (k + 1) = omega arith in
            rw behind (
              load8-reverse_outside ended str (k + 1) (str + (k + 1)) (inr (omega arith))
              ∙ ground (arith, load8-store8 signed (str + (k + 1)) 0 (str + (k + 1))))),
    )

zero_digit :
    (m : Memory) (str base : ℕ)
    → 2 ≤ base
    → load8 (store8 (store8 m str b'0') (str + 1) 0) (str + 0)
      ≡ numeral (0 / base ^ (1 - 1 - 0) % base)
zero_digit m str base lo =
    let place : str + 0 ≡ str = omega arith in
    let digit : 0 / base ^ 0 % base ≡ 0 = rw (zero-div (base ^ 0)) (zero-mod base) in
    rw (place, digit)
      (load8-store8_ne (store8 m str b'0') (str + 1) 0 str (omega arith)
        ∙ ground (arith, load8-store8 m str b'0' str))

-- Zero is one digit.
zero_printed :
    (m : Memory) (str base : ℕ)
    → 2 ≤ base
    → IsNumeral (store8 (store8 m str b'0') (str + 1) 0) str base 0 1
zero_printed m str base lo = record {
  some_digit = omega arith;
  digit = λ j lt. let first : j ≡ 0 = omega (arith, lt) in rw first (zero_digit m str base lo);
  ends = ground (arith, load8-store8 (store8 m str b'0') (str + 1) 0 (str + 1));
  all_of_them = rw (pow-suc base 0, pow-zero base) (omega arith);
  no_more = inl refl;
}

itoa_nonzero_lem :
    (fuel : ℕ) (m : Memory) (minus : Bool) (v : ℤ) (str base : ℕ) (r : Memory × ℕ)
    → itoa_digits fuel m v str base 0 ≡ some r
    → itoa_nonzero fuel m minus v str base ≡ some (itoa_finish minus str r)
unfolding itoa_nonzero
itoa_nonzero_lem fuel m minus v str base r e = ap (Option.map (itoa_finish minus str)) e

-- The digits of a number that is not zero, at the start of the buffer.
nonzero :
    (fuel : ℕ) (m : Memory) (minus : Bool) (n str base : ℕ)
    → 32 ≤ fuel
    → 2 ≤ base
    → base ≤ 36
    → n < 2 ^ 31
    → (m' : Memory) × (k : ℕ) × (itoa_nonzero fuel m minus (pos n) str base
        ≡ some (itoa_finish minus str (m', k)))
      × HasDigits m' str base n k
nonzero zero m minus n str base enough lo hi fits = absurd (omega arith)
nonzero (suc fuel) m minus n str base enough lo hi fits =
    let powers = pow-le-pow_right {n = 2} (omega arith) {i = 31} {j = fuel} (omega arith) in
    let (m', k, runs, digits, _) =
      itoa_digits-HasDigits fuel m n str base 0 lo hi (omega (arith, powers)) in
    let place : str + 0 ≡ str = omega arith in
    let count : 0 + k ≡ k = omega arith in
    (
      m',
      k,
      itoa_nonzero_lem (suc fuel) m minus (pos n) str base (m', k) (rw count at runs),
      rw place at digits,
    )

-- For a base from 2 to 36 and a number that an `int` holds, 32 rounds are enough for the loop, and
-- `itoa` leaves the number's text: its digits from the highest one on, behind a minus sign where
-- the number is negative, and a zero byte. A negative number must be above -2 ^ 31, in base 10.
pub itoa-IsPrinted :
    (fuel : ℕ) (m : Memory) (value : ℤ) (str base : ℕ)
    → 32 ≤ fuel
    → 2 ≤ base
    → base ≤ 36
    → IsPrintable base value
    → (m' : Memory) × (k : ℕ) × (itoa fuel m value str base ≡ some m')
      × IsPrinted m' str base value k
unfolding itoa negate
itoa-IsPrinted fuel m (pos zero) str base enough lo hi fits =
    (store8 (store8 m str b'0') (str + 1) 0, 1, refl, zero_printed m str base lo)
itoa-IsPrinted fuel m (pos (suc n)) str base enough lo hi fits =
    let (m', k, runs, digits) = nonzero fuel m false (suc n) str base enough lo hi fits in
    let more : (suc n == 0) ≡ false = ground arith in
    (
      itoa_finish false str (m', k),
      k,
      rw more runs,
      itoa_finish-IsNumeral m' str base (suc n) k (omega arith) digits,
    )
itoa-IsPrinted fuel m (negsuc n) str base enough lo hi (fits, ten) =
    let (m', k, runs, digits) = nonzero fuel m true (suc n) str base enough lo hi fits in
    let small : ltb (suc n) (2 ^ 31) ≡ true = ground (arith, fits) in
    let in_ten : (base == 10) ≡ true = ground (arith, ten) in
    (
      itoa_finish true str (m', k),
      k,
      rw (in_ten, small) runs,
      itoa_finish-minus m' str base (suc n) k (omega arith) digits,
    )
