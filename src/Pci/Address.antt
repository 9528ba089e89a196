-- ===== src/Pci/Address.antt =====
-- Configuration addresses.
use orbit_os.Base.{ℕ, ◌+◌, ◌*◌, ◌/◌, ◌^◌, ◌<◌, ◌≡◌, refl, arith, ◌∙◌}
use orbit_os.Base.{true, bit_and, bit_or, ◌==◌, ==_iff, u8, ◌<<◌}
use orbit_os.Bits.{bit_or-shift, bit_or_comm, all_below, all_below_lem}
use orbit_os.Pci.{address}

word_aligned_table : all_below 256 (λ x. bit_and x 0xFC == x / 4 * 4) ≡ true
unfolding all_below
word_aligned_table = refl

word_aligned : (x : ℕ) → x < 256 → bit_and x 0xFC ≡ x / 4 * 4
word_aligned x h =
    (==_iff (bit_and x 0xFC) (x / 4 * 4)).0
      (all_below_lem 256 (λ x. bit_and x 0xFC == x / 4 * 4) x word_aligned_table h)

-- The configuration address is the enable bit with the bus, the slot, the function and the offset,
-- cut to a word, in their places, where the slot has five bits and the function three.
pub address-fields :
    (bus slot func offset : ℕ)
    → bus < 256
    → slot < 32
    → func < 8
    → offset < 256
    → address bus slot func offset
      ≡ 2 ^ 31 + bus * 2 ^ 16 + slot * 2 ^ 11 + func * 2 ^ 8 + offset / 4 * 4
unfolding address
address-fields bus slot func offset hb hs hf ho =
    let b : u8 bus ≡ bus = omega arith in
    let s : u8 slot ≡ slot = omega arith in
    let f : u8 func ≡ func = omega arith in
    let o : u8 offset ≡ offset = omega arith in
    let bs : bit_or (bus << 16) (slot << 11) ≡ (bus * 2 ^ 5 + slot) * 2 ^ 11 =
      bit_or-shift 16 bus (slot << 11) (omega arith) ∙ omega arith in
    let bsf : bit_or ((bus * 2 ^ 5 + slot) * 2 ^ 11) (func << 8)
        ≡ ((bus * 2 ^ 5 + slot) * 2 ^ 3 + func) * 2 ^ 8 =
      bit_or-shift 11 (bus * 2 ^ 5 + slot) (func << 8) (omega arith) ∙ omega arith in
    let bsfo : bit_or (((bus * 2 ^ 5 + slot) * 2 ^ 3 + func) * 2 ^ 8) (offset / 4 * 4)
        ≡ ((bus * 2 ^ 5 + slot) * 2 ^ 3 + func) * 2 ^ 8 + offset / 4 * 4 =
      bit_or-shift 8 ((bus * 2 ^ 5 + slot) * 2 ^ 3 + func) (offset / 4 * 4) (omega arith) in
    let low = ((bus * 2 ^ 5 + slot) * 2 ^ 3 + func) * 2 ^ 8 + offset / 4 * 4 in
    let enabled : bit_or low 0x80000000 ≡ 2 ^ 31 + low =
      bit_or_comm low 0x80000000 ∙ bit_or-shift 31 1 low (omega arith) ∙ omega arith in
    rw (b, s, f, o, word_aligned offset ho, bs, bsf, bsfo, enabled) (omega arith)
