-- ===== src/Strings/Numeral.antt =====
-- `itoa`: the digits of a number.
use native.Mathlib.Nat.{
  pow-zero, div-div-eq-div-mul, div-lt_iff_lt-mul, le-div_iff_mul-le, pow-suc, pow-succ',
  two-pow-succ, mod-lt,
}
use orbit_os.Base.{
  ℕ, zero, suc, ◌+◌, ◌-◌, ◌/◌, ◌%◌, ◌^◌, ◌≤◌, ◌<◌, ◌≡◌, ◌≢◌, ◌⊎◌, ◌∙◌, refl, arith, ap, sym, inl,
  inr, some,
}
use orbit_os.Base.{◌==◌, ltb, if◌then◌else◌, u8, false}
use orbit_os.Base.Int.{pos}
use orbit_os.Memory.{Memory, load8, store8, load8-store8}
use orbit_os.Strings.{itoa_digits, digit_char, quotient, remainder}

-- The character of a digit: 0 to 9, then a, b and so on.
abbrev pub numeral : ℕ → ℕ
numeral d = if ltb d 10 then b'0' + d else b'a' + (d - 10)

digit_char-numeral : (d : ℕ) → d < 36 → digit_char (pos d) ≡ numeral d
unfolding digit_char
digit_char-numeral d h = ground arith

-- The `k` digits of `v`, the last one first, stand at `a`, and `k` is the number of digits.
pub record HasDigits (m : Memory) (a base v k : ℕ) : Type 0 where
  pub digit : (j : ℕ) → j < k → load8 m (a + j) ≡ numeral (v / base ^ j % base)
  pub all_of_them : v < base ^ k
  pub no_more : (k ≡ 0) ⊎ ((j : ℕ) × (k ≡ suc j) × (base ^ j ≤ v))

digit_step : (v base j : ℕ) → v / base / base ^ j ≡ v / base ^ suc j
digit_step v base j =
    div-div-eq-div-mul v base (base ^ j) ∙ ap (λ p. v / p) (sym (pow-succ' base j))

bound_step : (v base k : ℕ) → 2 ≤ base → v / base < base ^ k → v < base ^ suc k
bound_step v base k h lt =
    rw (pow-suc base k) ((div-lt_iff_lt-mul {k = base} {x = v} {y = base ^ k} (omega arith)).0 lt)

lower_step : (v base k : ℕ) → 2 ≤ base → base ^ k ≤ v / base → base ^ suc k ≤ v
lower_step v base k h le =
    rw (pow-suc base k) ((le-div_iff_mul-le {k = base} {x = base ^ k} {y = v} (omega arith)).0 le)

half : (v base f : ℕ) → 2 ≤ base → v < 2 ^ suc f → v / base < 2 ^ f
half v base f h lt =
    (div-lt_iff_lt-mul {k = base} {x = v} {y = 2 ^ f} (omega arith)).1
      (grind (arith, two-pow-succ f, lt))

digit_char-lt :
    (v base : ℕ) → 2 ≤ base → base ≤ 36 → u8 (digit_char (pos (v % base))) ≡ numeral (v % base)
digit_char-lt v base lo hi =
    let small : v % base < 36 = omega (arith, mod-lt v {m = base} (omega arith)) in
    rw (digit_char-numeral (v % base) small) (ground arith)

no_digits : (m : Memory) (a base : ℕ) → HasDigits m a base 0 0
no_digits m a base = record {
  digit = λ j h. absurd (omega arith);
  all_of_them = rw (pow-zero base) (omega arith);
  no_more = inl refl;
}

digit_more :
    (m : Memory) (a base v k j : ℕ)
    → 2 ≤ base
    → base ≤ 36
    → load8 m a ≡ u8 (digit_char (pos (v % base)))
    → HasDigits m (a + 1) base (v / base) k
    → j < suc k
    → load8 m (a + j) ≡ numeral (v / base ^ j % base)
digit_more m a base v k zero lo hi first h lt =
    let whole : v / base ^ 0 ≡ v = rw (pow-zero base) (omega arith) in
    let here : a + 0 ≡ a = omega arith in rw (here, whole) (first ∙ digit_char-lt v base lo hi)
digit_more m a base v k (suc j) lo hi first h lt =
    let place : a + suc j ≡ a + 1 + j = omega arith in
    rw (place, sym (digit_step v base j)) (h.digit j (omega arith))

length_more :
    (v base k : ℕ)
    → 2 ≤ base
    → v ≢ 0
    → (k ≡ 0) ⊎ ((j : ℕ) × (k ≡ suc j) × (base ^ j ≤ v / base))
    → (suc k ≡ 0) ⊎ ((j : ℕ) × (suc k ≡ suc j) × (base ^ j ≤ v))
length_more v base k lo real (inl z) =
    let one : base ^ 0 ≤ v = rw (pow-zero base) (omega (arith, real)) in inr (0, ap suc z, one)
length_more v base k lo real (inr (j, e, le)) = inr (suc j, ap suc e, lower_step v base j lo le)

HasDigits-more :
    (m : Memory) (a base v k : ℕ)
    → 2 ≤ base
    → base ≤ 36
    → v ≢ 0
    → load8 m a ≡ u8 (digit_char (pos (v % base)))
    → HasDigits m (a + 1) base (v / base) k
    → HasDigits m a base v (suc k)
HasDigits-more m a base v k lo hi real first h = record {
  digit = λ j lt. digit_more m a base v k j lo hi first h lt;
  all_of_them = bound_step v base k lo h.all_of_them;
  no_more = length_more v base k lo real h.no_more;
}

-- The loop writes the digits and leaves every other byte.
pub itoa_digits-HasDigits :
    (fuel : ℕ) (m : Memory) (v str base i : ℕ)
    → 2 ≤ base
    → base ≤ 36
    → v < 2 ^ fuel
    → (m' : Memory) × (k : ℕ) × (itoa_digits (suc fuel) m (pos v) str base i ≡ some (m', i + k))
      × HasDigits m' (str + i) base v k
      × ((a : ℕ) → (a < str + i) ⊎ (str + i + k ≤ a) → load8 m' a ≡ load8 m a)
unfolding itoa_digits quotient remainder
itoa_digits-HasDigits fuel m zero str base i lo hi lt =
    let same : i + 0 ≡ i = omega arith in
    (m, 0, rw same refl, no_digits m (str + i) base, λ a out. refl)
itoa_digits-HasDigits zero m (suc v) str base i lo hi lt = absurd (omega arith)
itoa_digits-HasDigits (suc fuel) m (suc v) str base i lo hi lt =
    let written = store8 m (str + i) (digit_char (pos (suc v % base))) in
    let (m', k, runs, digits, out) =
      itoa_digits-HasDigits fuel written (suc v / base) str base (i + 1) lo hi
        (half (suc v) base fuel lo lt) in
    let place : str + (i + 1) ≡ str + i + 1 = omega arith in
    let count : i + 1 + k ≡ i + suc k = omega arith in
    let more : (suc v == 0) ≡ false = ground arith in
    let wrote = load8-store8 m (str + i) (digit_char (pos (suc v % base))) in
    (
      m',
      suc k,
      rw more (runs ∙ ap (λ n. some (m', n)) count),
      HasDigits-more m' (str + i) base (suc v) k lo hi (λ z. absurd (omega (arith, z)))
          (out (str + i) (inl (omega arith)) ∙ ground (arith, wrote (str + i)))
          (rw place at digits),
      λ a far. out a (omega (arith, far)) ∙ ground (arith, wrote a, far),
    )
