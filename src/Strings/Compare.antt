-- ===== src/Strings/Compare.antt =====
-- `strlen`, `strcmp` and `strncmp` on strings in memory.
use orbit_os.Base.{ℕ, zero, suc, ◌+◌, ◌<◌, ◌≡◌, ◌≢◌, ◌⊎◌, ◌↔◌, refl, arith, ap, ◌∙◌}
use orbit_os.Base.{◌==◌, if◌then◌else◌, List, [], ◌∷◌, length, take}
use native.Mathlib.Decide.{ℕ_discrete}
use orbit_os.Base.{some, inl, inr}
use orbit_os.Base.Int.{ℤ, pos, sub_ℕ}
use orbit_os.Memory.{Memory, load8}
use orbit_os.Strings.{strlen, strlen_from, strcmp, strncmp, strncmp_loop, IsString}

pub strlen_from_lem :
    (m : Memory) (str : ℕ) (s : List ℕ) (len fuel : ℕ)
    → IsString m (str + len) s
    → length s < fuel
    → strlen_from fuel m str len ≡ some (len + length s)
unfolding strlen_from
strlen_from_lem m str s len zero h f = absurd (omega arith)
strlen_from_lem m str [] len (suc fuel) h f = ground arith
strlen_from_lem m str (c ∷ s) len (suc fuel) h f =
    let next : str + len + 1 ≡ str + (len + 1) = omega arith in
    ground (arith, strlen_from_lem m str s (len + 1) fuel (rw (← next) h.2) (omega arith))

-- With fuel above the string's length, `strlen` of a string in memory returns that length.
pub strlen_lem :
    (m : Memory) (str : ℕ) (s : List ℕ) (fuel : ℕ)
    → IsString m str s
    → length s < fuel
    → strlen fuel m str ≡ some (length s)
unfolding strlen
strlen_lem m str s fuel h f =
    let start : str + 0 ≡ str = omega arith in
    strlen_from_lem m str s 0 fuel (rw start h) f ∙ ap some (omega arith)

-- What the two comparisons compute, on the contents of the strings: the difference of the first
-- bytes that differ, where the end of a string counts as a zero.
unfoldable pub compare_bytes : List ℕ → List ℕ → ℤ
compare_bytes [] [] = pos 0
compare_bytes [] (d ∷ t) = sub_ℕ 0 d
compare_bytes (c ∷ s) [] = sub_ℕ c 0
compare_bytes (c ∷ s) (d ∷ t) = if c == d then compare_bytes s t else sub_ℕ c d

abbrev pub NonZero : List ℕ → Type 0
NonZero [] = Unit
NonZero (c ∷ s) = (c ≢ 0) × NonZero s

pub IsString-NonZero : (m : Memory) (a : ℕ) (s : List ℕ) → IsString m a s → NonZero s
IsString-NonZero m a [] h = tt
IsString-NonZero m a (c ∷ s) h = (h.1, IsString-NonZero m (a + 1) s h.2)

pub strcmp-compare_bytes :
    (m : Memory) (a b : ℕ) (s t : List ℕ) (fuel : ℕ)
    → IsString m a s
    → IsString m b t
    → length s < fuel
    → strcmp fuel m a b ≡ some (compare_bytes s t)
unfolding strcmp compare_bytes
strcmp-compare_bytes m a b s t zero hs ht f = absurd (omega arith)
strcmp-compare_bytes m a b [] [] (suc fuel) hs ht f = ground arith
strcmp-compare_bytes m a b [] (d ∷ t) (suc fuel) hs ht f = ground arith
strcmp-compare_bytes m a b (c ∷ s) [] (suc fuel) hs ht f = ground arith
strcmp-compare_bytes m a b (c ∷ s) (d ∷ t) (suc fuel) hs ht f =
    ground (arith, strcmp-compare_bytes m (a + 1) (b + 1) s t fuel hs.2 ht.2 (omega arith))

pub compare_bytes-eq_zero_iff :
    (s t : List ℕ) → NonZero s → NonZero t → (compare_bytes s t ≡ pos 0) ↔ (s ≡ t)
unfolding compare_bytes
compare_bytes-eq_zero_iff [] [] hs ht = ground arith
compare_bytes-eq_zero_iff [] (d ∷ t) hs ht = ground arith
compare_bytes-eq_zero_iff (c ∷ s) [] hs ht = ground arith
compare_bytes-eq_zero_iff (c ∷ s) (d ∷ t) hs ht =
    ground (arith, compare_bytes-eq_zero_iff s t hs.1 ht.1)

-- With fuel above the first string's length, `strcmp` of two strings in memory returns, and it returns
-- 0 exactly when they are equal.
pub strcmp-eq_zero_iff :
    (m : Memory) (a b : ℕ) (s t : List ℕ) (fuel : ℕ)
    → IsString m a s
    → IsString m b t
    → length s < fuel
    → (r : ℤ) × (strcmp fuel m a b ≡ some r) × ((r ≡ pos 0) ↔ (s ≡ t))
strcmp-eq_zero_iff m a b s t fuel hs ht f = (
  compare_bytes s t,
  strcmp-compare_bytes m a b s t fuel hs ht f,
  compare_bytes-eq_zero_iff s t (IsString-NonZero m a s hs) (IsString-NonZero m b t ht),
)

-- One round of the loop: it ends at a zero or a difference, and goes on past a common character.
module _ (m : Memory) (n a b c d : ℕ) (ha : load8 m a ≡ c) (hb : load8 m b ≡ d) where
  loop_stops : (c ≡ 0) ⊎ (d ≡ 0) ⊎ (c ≢ d) → strncmp_loop m a b (suc n) ≡ sub_ℕ c d
  unfolding strncmp_loop
  loop_stops h = ground arith

  loop_goes_on :
      c ≢ 0
      → c ≡ d
      → strncmp_loop m a b (suc n) ≡ (if n == 0 then pos 0 else strncmp_loop m (a + 1) (b + 1) n)
  unfolding strncmp_loop
  loop_goes_on ne e = ground arith

strncmp_loop-compare_bytes :
    (m : Memory) (n a b : ℕ) (s t : List ℕ)
    → IsString m a s
    → IsString m b t
    → strncmp_loop m a b (suc n) ≡ compare_bytes (take (suc n) s) (take (suc n) t)
unfolding compare_bytes
strncmp_loop-compare_bytes m n a b [] [] hs ht = loop_stops m n a b 0 0 hs ht (inl refl)
strncmp_loop-compare_bytes m n a b [] (d ∷ t) hs ht = loop_stops m n a b 0 d hs ht.0 (inl refl)
strncmp_loop-compare_bytes m n a b (c ∷ s) [] hs ht =
    loop_stops m n a b c 0 hs.0 ht (inr (inl refl))
strncmp_loop-compare_bytes m zero a b (c ∷ s) (d ∷ t) hs ht = elim (ℕ_discrete c d) [
  | yes e ↦ ground (arith, loop_goes_on m 0 a b c d hs.0 ht.0 hs.1 e)
  | no ne ↦ ground (arith, loop_stops m 0 a b c d hs.0 ht.0 (inr (inr ne)))
]
strncmp_loop-compare_bytes m (suc n) a b (c ∷ s) (d ∷ t) hs ht =
    let ih = strncmp_loop-compare_bytes m n (a + 1) (b + 1) s t hs.2 ht.2 in
    elim (ℕ_discrete c d) [
      | yes e ↦ ground (arith, loop_goes_on m (suc n) a b c d hs.0 ht.0 hs.1 e, ih)
      | no ne ↦ ground (arith, loop_stops m (suc n) a b c d hs.0 ht.0 (inr (inr ne)))
    ]

pub take-NonZero : (n : ℕ) (s : List ℕ) → NonZero s → NonZero (take n s)
take-NonZero zero s h = tt
take-NonZero (suc n) [] h = tt
take-NonZero (suc n) (c ∷ s) h = (h.0, take-NonZero n s h.1)

pub strncmp-compare_bytes :
    (m : Memory) (a b n : ℕ) (s t : List ℕ)
    → IsString m a s
    → IsString m b t
    → strncmp m a b n ≡ compare_bytes (take n s) (take n t)
unfolding strncmp compare_bytes
strncmp-compare_bytes m a b zero s t hs ht = ground arith
strncmp-compare_bytes m a b (suc n) s t hs ht =
    ground (arith, strncmp_loop-compare_bytes m n a b s t hs ht)

-- `strncmp` of two strings in memory is 0 exactly when their first `n` characters are equal.
pub strncmp-eq_zero_iff :
    (m : Memory) (a b n : ℕ) (s t : List ℕ)
    → IsString m a s
    → IsString m b t
    → (strncmp m a b n ≡ pos 0) ↔ (take n s ≡ take n t)
strncmp-eq_zero_iff m a b n s t hs ht = rw (strncmp-compare_bytes m a b n s t hs ht) (
    compare_bytes-eq_zero_iff (take n s) (take n t) (take-NonZero n s (IsString-NonZero m a s hs))
      (take-NonZero n t (IsString-NonZero m b t ht)))
