-- ===== src/Strings/Reverse.antt =====
-- `reverse`: every byte goes to the mirrored place.
use orbit_os.Base.{
  ℕ, zero, suc, ◌+◌, ◌-◌, ◌≤◌, ◌<◌, ◌≡◌, ◌⊎◌, ◌∙◌, refl, arith, ap, ◌==◌, ltb, leb, ◌&&◌,
  Bool-cases, if◌then◌else◌,
}
use orbit_os.Base.{inl, inr}
use orbit_os.Memory.{Memory, load8, store8, load8-store8, load8-lt}
use orbit_os.Strings.{reverse, reverse_loop}

-- The bytes from `lo` to `hi` mirrored.
abbrev pub mirror : (ℕ → ℕ) → ℕ → ℕ → ℕ → ℕ
mirror f lo hi a = if leb lo a && leb a hi then f (lo + hi - a) else f a

abbrev swap : (ℕ → ℕ) → ℕ → ℕ → ℕ → ℕ
swap f lo hi a = if a == hi then f lo else if a == lo then f hi else f a

mirror_none : (f : ℕ → ℕ) (lo hi a : ℕ) → hi ≤ lo → f a ≡ mirror f lo hi a
mirror_none f lo hi a h = ground arith

mirror_more :
    (f g : ℕ → ℕ) (lo hi a : ℕ)
    → lo < hi
    → ((b : ℕ) → g b ≡ swap f lo hi b)
    → mirror g (lo + 1) (hi - 1) a ≡ mirror f lo hi a
mirror_more f g lo hi a h swapped =
    let inner : (lo + 1) + (hi - 1) - a ≡ lo + hi - a = omega arith in
    rw (inner, swapped (lo + hi - a), swapped a) (ground arith)

load8-swapped :
    (m : Memory) (lo hi b : ℕ)
    → load8 (store8 (store8 m lo (load8 m hi)) hi (load8 m lo)) b ≡ swap (load8 m) lo hi b
load8-swapped m lo hi b =
    let last = load8-store8 (store8 m lo (load8 m hi)) hi (load8 m lo) b in
    let first = load8-store8 m lo (load8 m hi) b in
    ground (arith, last, first, load8-lt m lo, load8-lt m hi)

-- The loop mirrors the bytes from `start` to `end`, and no others.
load8-reverse_loop :
    (fuel : ℕ) (m : Memory) (str start end a : ℕ)
    → end < start + fuel
    → load8 (reverse_loop fuel m str start end) a ≡ mirror (load8 m) (str + start) (str + end) a
unfolding reverse_loop
load8-reverse_loop zero m str start end a f =
    mirror_none (load8 m) (str + start) (str + end) a (omega arith)
load8-reverse_loop (suc fuel) m str start end a f =
    let lo = str + start in
    let hi = str + end in
    let swapped = store8 (store8 m lo (load8 m hi)) hi (load8 m lo) in
    elim (Bool-cases (ltb start end)) [
      | inl e ↦
          let more : start < end = ground (arith, e) in
          let next_lo : str + (start + 1) ≡ lo + 1 = omega arith in
          let next_hi : str + (end - 1) ≡ hi - 1 = omega (arith, more) in
          let rest =
            load8-reverse_loop fuel swapped str (start + 1) (end - 1) a (omega (arith, more)) in
          rw e (
            rest
            ∙ rw (next_lo, next_hi)
                (mirror_more (load8 m) (load8 swapped) lo hi a (omega (arith, more))
                  (load8-swapped m lo hi)))
      | inr e ↦ rw e (mirror_none (load8 m) lo hi a (ground (arith, e)))
    ]

-- Byte `i` of `length` bytes comes from the same distance to the end.
pub load8-reverse :
    (m : Memory) (str length i : ℕ)
    → i < length
    → load8 (reverse m str length) (str + i) ≡ load8 m (str + (length - 1 - i))
unfolding reverse
load8-reverse m str length i h =
    let all = load8-reverse_loop length m str 0 (length - 1) (str + i) (omega arith) in
    let mirrored : str + 0 + (str + (length - 1)) - (str + i) ≡ str + (length - 1 - i) =
      omega arith in
    ground (arith, all, ap (load8 m) mirrored)

reverse-zero : (m : Memory) (str : ℕ) → reverse m str 0 ≡ m
unfolding reverse reverse_loop
reverse-zero m str = refl

-- Bytes beside them stay.
pub load8-reverse_outside :
    (m : Memory) (str length a : ℕ)
    → (a < str) ⊎ (str + length ≤ a)
    → load8 (reverse m str length) a ≡ load8 m a
unfolding reverse
load8-reverse_outside m str zero a h = ap (λ m'. load8 m' a) (reverse-zero m str)
load8-reverse_outside m str (suc length) a h =
    let all = load8-reverse_loop (suc length) m str 0 length a (omega arith) in ground (arith, all)
