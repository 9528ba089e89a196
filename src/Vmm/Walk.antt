-- ===== src/Vmm/Walk.antt =====
-- How the processor translates an address, and what writing one entry changes.
use native.Mathlib.Decide.{ℕ_discrete}
use orbit_os.Base.{ℕ, ◌+◌, ◌-◌, ◌*◌, ◌/◌, ◌%◌, ◌^◌, ◌≤◌, ◌<◌, ◌≡◌, ◌≢◌, arith, ◌∙◌, ap}
use orbit_os.Base.{sym, true, bit_and, bit_or, ◌==◌, if◌then◌else◌, Option, some, none, complement}
use orbit_os.Bits.{bit_and-high, bit_and-mask, bit_or-one, bit_or-shift}
use orbit_os.Memory.{Memory, load8, word, set_word, load32-same, load32-store32_ne}

-- The upper 20 bits of an entry.
abbrev pub frame : ℕ → ℕ
frame entry = entry / 4096 * 4096

-- The walk of the processor: the directory's entry, then the table's; an entry with bit 0 clear ends
-- it, and the offset in the page is added to the frame.
unfoldable pub translate : Memory → ℕ → ℕ → Option ℕ
translate m pd virt =
    let pde = word m pd (virt / 2 ^ 22) in
    let pte = word m (frame pde) (virt / 4096 % 1024) in
    if pde % 2 == 0 then none else if pte % 2 == 0 then none else some (frame pte + virt % 4096)

pub bit_and-frame : (n : ℕ) → n < 2 ^ 32 → bit_and n (complement 0xFFF) ≡ frame n
bit_and-frame n h =
    let parts : n / 4096 * 2 ^ 12 + n % 4096 ≡ n = omega arith in
    ap (λ t. bit_and t (complement 0xFFF)) (sym parts)
    ∙ bit_and-high 12 (n / 4096) (n % 4096) (2 ^ 20 - 1) (omega arith)
    ∙ omega (arith, bit_and-mask 20 (n / 4096))

-- An entry as the code makes it: a frame, the flags, and the bit that says it is present.
pub entry_lem :
    (f flags : ℕ) → flags < 4096 → bit_or (bit_or (f * 4096) flags) 1 ≡ f * 4096 + flags / 2 * 2 + 1
entry_lem f flags h =
    let low : bit_or (f * 4096) flags ≡ f * 4096 + flags = bit_or-shift 12 f flags h in
    rw low (bit_or-one (f * 4096 + flags) ∙ omega arith)

-- Two pages of memory do not overlap.
pub word-set_word_other :
    (m : Memory) (p q i j v : ℕ)
    → p % 4096 ≡ 0
    → q % 4096 ≡ 0
    → p ≢ q
    → i < 1024
    → j < 1024
    → word (set_word m p i v) q j ≡ word m q j
unfolding word set_word
word-set_word_other m p q i j v hp hq ne hi hj =
    load32-store32_ne m (p + 4 * i) v (q + 4 * j) (omega arith)

pub word-same :
    (m m' : Memory) (p j : ℕ)
    → ((a : ℕ) → p ≤ a → a < p + 4096 → load8 m' a ≡ load8 m a)
    → j < 1024
    → word m' p j ≡ word m p j
unfolding word
word-same m m' p j same h =
    load32-same m m' (p + 4 * j) (λ b ge lt. same b (omega arith) (omega arith))

-- The walk reads one word of the directory and, where that is present, one of a table.
pub translate-same :
    (m m' : Memory) (pd virt : ℕ)
    → word m' pd (virt / 2 ^ 22) ≡ word m pd (virt / 2 ^ 22)
    → (word m pd (virt / 2 ^ 22) % 2 ≢ 0
        → word m' (frame (word m pd (virt / 2 ^ 22))) (virt / 4096 % 1024)
          ≡ word m (frame (word m pd (virt / 2 ^ 22))) (virt / 4096 % 1024))
    → translate m' pd virt ≡ translate m pd virt
unfolding translate
translate-same m m' pd virt same table =
    let pde = word m pd (virt / 2 ^ 22) in
    elim (ℕ_discrete (pde % 2) 0) [
      | yes z ↦ let absent : (pde % 2 == 0) ≡ true = ground arith in rw (same, absent)
      | no nz ↦ rw (same, table nz)
    ]

-- The directory of `v` in its memory.
abbrev pub pde_at : Memory → ℕ → ℕ → ℕ
pde_at m pd i = word m pd i

abbrev pub IsPresent : Memory → ℕ → ℕ → Type 0
IsPresent m pd i = (i < 1024) × (word m pd i % 2 ≢ 0)

-- The directory is a page, and no table is shared or the directory itself.
pub record HasTables (m : Memory) (pd : ℕ) : Type 0 where
  pub aligned : pd % 4096 ≡ 0
  pub not_pd : (i : ℕ) → IsPresent m pd i → frame (word m pd i) ≢ pd
  pub not_shared :
      (i j : ℕ)
      → IsPresent m pd i
      → IsPresent m pd j
      → i ≢ j
      → frame (word m pd i) ≢ frame (word m pd j)
