-- ===== src/Gdt/Encoding.antt =====
-- The processor's reading of a descriptor gives back what was put in.
use orbit_os.Base.{ℕ, ◌+◌, ◌*◌, ◌/◌, ◌%◌, ◌^◌, ◌<◌, ◌≡◌, refl, arith, ◌==◌, ==_iff, true}
use orbit_os.Base.{bit_and, bit_or, u8, ◌>>◌}
use orbit_os.Bits.{all_below, all_below_lem, bit_and-mask}
use orbit_os.Gdt.{GdtEntry, gate}

-- How the processor puts the fields of a descriptor together.
unfoldable pub segment_base : GdtEntry → ℕ
segment_base e = e.base_low + e.base_middle * 2 ^ 16 + e.base_high * 2 ^ 24

unfoldable pub segment_limit : GdtEntry → ℕ
segment_limit e = e.limit_low + e.granularity % 16 * 2 ^ 16

-- The four flags over the limit, and the privilege level in the access byte.
unfoldable pub segment_flags : GdtEntry → ℕ
segment_flags e = e.granularity / 16

unfoldable pub privilege : GdtEntry → ℕ
privilege e = e.access / 32 % 4

high_digit_table : all_below 256 (λ g. bit_and g 0xF0 == g / 16 * 16) ≡ true
unfolding all_below
high_digit_table = refl

high_digit : (g : ℕ) → g < 256 → bit_and g 0xF0 ≡ g / 16 * 16
high_digit g h = (==_iff _ _).0 (all_below_lem 256 _ g high_digit_table h)

or_digits_table : all_below 16 (λ l. all_below 16 (λ h. bit_or l (h * 16) == h * 16 + l)) ≡ true
unfolding all_below
or_digits_table = refl

or_digits : (l h : ℕ) → l < 16 → h < 16 → bit_or l (h * 16) ≡ h * 16 + l
or_digits l h hl hh = (==_iff _ _).0 (
    all_below_lem 16 (λ k. bit_or l (k * 16) == k * 16 + l) h
      (all_below_lem 16 (λ j. all_below 16 (λ k. bit_or j (k * 16) == k * 16 + j)) l or_digits_table
        hl)
      hh)

granularity-gate :
    (base limit access gran : ℕ)
    → gran < 256
    → (gate base limit access gran).granularity ≡ gran / 16 * 16 + limit / 2 ^ 16 % 16
unfolding gate
granularity-gate base limit access gran h =
    let low : u8 (bit_and (limit >> 16) 0x0F) ≡ limit / 2 ^ 16 % 16 =
      omega (arith, bit_and-mask 4 (limit / 2 ^ 16)) in
    rw
      (
        low,
        high_digit gran h,
        or_digits (limit / 2 ^ 16 % 16) (gran / 16) (omega arith) (omega arith),
      )
      (omega arith)

-- A descriptor made of a 32-bit base and two bytes of flags holds the whole base, the low 20 bits of
-- the limit, the four flags and the privilege level.
pub gate-fields :
    (base limit access gran : ℕ)
    → base < 2 ^ 32
    → access < 256
    → gran < 256
    → (segment_base (gate base limit access gran) ≡ base)
      × (segment_limit (gate base limit access gran) ≡ limit % 2 ^ 20)
      × (segment_flags (gate base limit access gran) ≡ gran / 16)
      × (privilege (gate base limit access gran) ≡ access / 32 % 4)
unfolding gate segment_base segment_limit segment_flags privilege
gate-fields base limit access gran hb ha hg =
    let g = granularity-gate base limit access gran hg in
    (
      omega (
        arith,
        bit_and-mask 16 base,
        bit_and-mask 8 (base / 2 ^ 16),
        bit_and-mask 8 (base / 2 ^ 24),
      ),
      omega (arith, bit_and-mask 16 limit, g),
      omega (arith, g),
      omega arith,
    )
