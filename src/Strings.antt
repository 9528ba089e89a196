-- ===== src/Strings.antt =====
-- kernel/string.c over physical memory. A `char*` is an address, a byte is read unsigned (the
-- code compares bytes for equality and subtracts them as `unsigned char`), and a function that
-- writes returns the new memory. A loop that only the terminating zero ends takes fuel, and gives
-- `none` where the fuel runs out before it.
pub mod Blocks
pub mod Compare
pub mod Copy
pub mod Reverse
pub mod Numeral
pub mod Itoa
use orbit_os.Base.{
  ℕ, zero, suc, ◌+◌, ◌-◌, ◌*◌, ◌/◌, ◌%◌, ◌^◌, Option, none, some, Bool, true, false,
}
use orbit_os.Base.{◌==◌, ltb, leb, if◌then◌else◌, u8, ◌&&◌, ◌||◌, not, List, [], ◌∷◌, ◌≡◌, ◌≢◌}
use mathlib.Core.Option
use orbit_os.Base.{◌>>=◌}
use orbit_os.Base.Int.{ℤ, pos, negsuc, sub_ℕ}
use orbit_os.Memory.{Memory, load8, store8}

-- `while (num--) *p++ = (unsigned char)value;`
unfoldable pub memset : Memory → ℕ → ℕ → ℕ → Memory
memset m p value zero = m
memset m p value (suc num) = memset (store8 m p (u8 value)) (p + 1) value num

-- `while (num--) *d++ = *s++;`, byte by byte from the front, overlap included.
unfoldable pub memcpy : Memory → ℕ → ℕ → ℕ → Memory
memcpy m d s zero = m
memcpy m d s (suc num) = memcpy (store8 m d (load8 m s)) (d + 1) (s + 1) num

unfoldable pub strlen_from : ℕ → Memory → ℕ → ℕ → Option ℕ
strlen_from zero m str len = none
strlen_from (suc fuel) m str len =
    let rest = strlen_from fuel m str (len + 1) in
    if load8 m (str + len) == 0 then some len else rest

unfoldable pub strlen : ℕ → Memory → ℕ → Option ℕ
unfolding strlen_from
strlen fuel m str = strlen_from fuel m str 0

-- `*(const unsigned char*)str1 - *(const unsigned char*)str2`, an `int`.
unfoldable pub byte_difference : Memory → ℕ → ℕ → ℤ
byte_difference m str1 str2 = sub_ℕ (load8 m str1) (load8 m str2)

unfoldable pub strcmp : ℕ → Memory → ℕ → ℕ → Option ℤ
unfolding byte_difference
strcmp zero m str1 str2 = none
strcmp (suc fuel) m str1 str2 =
    let rest = strcmp fuel m (str1 + 1) (str2 + 1) in
    if not (load8 m str1 == 0) && (load8 m str1 == load8 m str2)
    then rest
    else some (byte_difference m str1 str2)

-- The loop of `strncmp` with `n` characters left: `n-- > 0` fails at zero.
unfoldable pub strncmp_loop : Memory → ℕ → ℕ → ℕ → ℤ
unfolding byte_difference
strncmp_loop m str1 str2 zero = byte_difference m str1 str2
strncmp_loop m str1 str2 (suc n) =
    let rest = strncmp_loop m (str1 + 1) (str2 + 1) n in
    if (load8 m str1 == 0) || (load8 m str2 == 0)
    then byte_difference m str1 str2
    else if not (load8 m str1 == load8 m str2)
    then byte_difference m str1 str2
    else if n == 0
    then pos 0
    else rest

unfoldable pub strncmp : Memory → ℕ → ℕ → ℕ → ℤ
unfolding strncmp_loop
strncmp m str1 str2 n = if n == 0 then pos 0 else strncmp_loop m str1 str2 n

unfoldable pub strcpy : ℕ → Memory → ℕ → ℕ → Option Memory
strcpy zero m d src = none
strcpy (suc fuel) m d src =
    let rest = strcpy fuel (store8 m d (load8 m src)) (d + 1) (src + 1) in
    if load8 m src == 0 then some (store8 m d 0) else rest

-- The loop of `reverse`; a round brings `start` and `end` together, so `length` rounds are enough.
unfoldable pub reverse_loop : ℕ → Memory → ℕ → ℕ → ℕ → Memory
reverse_loop zero m str start end = m
reverse_loop (suc fuel) m str start end =
    let temp = load8 m (str + start) in
    let swapped = store8 (store8 m (str + start) (load8 m (str + end))) (str + end) temp in
    let rest = reverse_loop fuel swapped str (start + 1) (end - 1) in
    if ltb start end then rest else m

unfoldable pub reverse : Memory → ℕ → ℕ → Memory
unfolding reverse_loop
reverse m str length = reverse_loop length m str 0 (length - 1)

-- `a / b` and `a % b` of C on `int`, which cut towards zero, for a positive `b`.
unfoldable pub quotient : ℤ → ℕ → ℤ
quotient (pos a) b = pos (a / b)
quotient (negsuc a) b = sub_ℕ 0 (suc a / b)

unfoldable pub remainder : ℤ → ℕ → ℤ
remainder (pos a) b = pos (a % b)
remainder (negsuc a) b = sub_ℕ 0 (suc a % b)

-- `(rem > 9) ? (rem - 10) + 'a' : rem + '0'`, stored into a `char`.
unfoldable pub digit_char : ℤ → ℕ
digit_char (pos r) = if ltb 9 r then u8 (r - 10 + b'a') else u8 (r + b'0')
digit_char (negsuc r) = u8 (b'0' + 2 ^ 8 - u8 (suc r))

abbrev pub is_zero : ℤ → Bool
is_zero (pos n) = n == 0
is_zero (negsuc n) = false

abbrev pub is_negative : ℤ → Bool
is_negative (pos n) = false
is_negative (negsuc n) = true

-- `-value` of an `int`: the negation of -2 ^ 31 overflows, which C leaves undefined.
unfoldable pub negate : ℤ → Option ℤ
negate (pos n) = some (sub_ℕ 0 n)
negate (negsuc n) = if ltb (suc n) (2 ^ 31) then some (pos (suc n)) else none

-- `while (value != 0) { … }`: the memory and the index after the last digit.
unfoldable pub itoa_digits : ℕ → Memory → ℤ → ℕ → ℕ → ℕ → Option (Memory × ℕ)
unfolding quotient remainder digit_char
itoa_digits zero m value str base i = none
itoa_digits (suc fuel) m value str base i =
    let written = store8 m (str + i) (digit_char (remainder value base)) in
    let rest = itoa_digits fuel written (quotient value base) str base (i + 1) in
    if is_zero value then some (m, i) else rest

-- The minus sign, the terminating zero and the reversal behind the loop.
unfoldable pub itoa_finish : Bool → ℕ → Memory × ℕ → Memory
unfolding reverse
itoa_finish true str (m, i) =
    reverse (store8 (store8 m (str + i) b'-') (str + (i + 1)) 0) str (i + 1)
itoa_finish false str (m, i) = reverse (store8 m (str + i) 0) str i

-- The rest of `itoa` for a value that is not zero, once the sign is taken off.
unfoldable pub itoa_nonzero : ℕ → Memory → Bool → ℤ → ℕ → ℕ → Option Memory
unfolding itoa_digits itoa_finish
itoa_nonzero fuel m minus value str base =
    Option.map (itoa_finish minus str) (itoa_digits fuel m value str base 0)

unfoldable pub itoa : ℕ → Memory → ℤ → ℕ → ℕ → Option Memory
unfolding itoa_nonzero negate
itoa fuel m value str base =
    if is_zero value
    then some (store8 (store8 m str b'0') (str + 1) 0)
    else if is_negative value && base == 10
    then (do v ← negate value; itoa_nonzero fuel m true v str base)
    else itoa_nonzero fuel m false value str base

-- The bytes of `s` stand at `a`, none of them zero, and a zero ends them.
abbrev pub IsString : Memory → ℕ → List ℕ → Type 0
IsString m a [] = load8 m a ≡ 0
IsString m a (c ∷ s) = (load8 m a ≡ c) × (c ≢ 0) × IsString m (a + 1) s
