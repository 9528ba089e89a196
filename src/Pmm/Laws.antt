-- ===== src/Pmm/Laws.antt =====
-- What a client of the physical memory manager may rely on.
use native.Mathlib.Decide.{ℕ_discrete}
use orbit_os.Base.{ℕ, ◌+◌, ◌-◌, ◌*◌, ◌/◌, ◌^◌, ◌≤◌, ◌<◌, ◌≡◌, ◌≢◌, refl, arith, sym}
use orbit_os.Base.{◌==◌, if◌then◌else◌, ◌∙◌, ap, u32, inl, inr, Bool-cases, ◌↔◌}
use orbit_os.Pmm.{
  Pmm, block_size, claim, give_back, bitmap_set, bitmap_clear, alloc_block, free_block,
}
use orbit_os.Pmm.{get_total_memory, get_free_memory, get_used_memory}
use orbit_os.Pmm.Bitmap.{usage, usage-le-one, bitmap_test-usage}
use orbit_os.Pmm.Count.{count_below, count_below_change, count_below_bound}
use orbit_os.Pmm.Alloc.{usage-claim, usage-give_back, AllUsed, Scanned, alloc_block-Scanned}

-- The counter counts the blocks in use, and every block address fits 32 bits.
pub record IsValid (p : Pmm) : Type 0 where
  pub blocks_fit : p.max_blocks ≤ 2 ^ 20
  pub counted : p.used_blocks ≡ count_below (usage p) p.max_blocks

used-le-max : (p : Pmm) → IsValid p → p.used_blocks ≤ p.max_blocks
used-le-max p v =
    omega (arith, v.counted, count_below_bound (usage p) p.max_blocks (usage-le-one p))

-- The three statistics of a valid state with fewer than 2 ^ 20 blocks add up, and none of them wraps
-- at 2 ^ 32 bytes.
pub memory_statistics :
    (p : Pmm)
    → IsValid p
    → p.max_blocks < 2 ^ 20
    → (get_used_memory p ≡ count_below (usage p) p.max_blocks * block_size)
      × (get_used_memory p + get_free_memory p ≡ get_total_memory p)
      × (get_total_memory p ≡ p.max_blocks * block_size)
unfolding get_total_memory get_free_memory get_used_memory
memory_statistics p v h = omega (arith, used-le-max p v, v.counted)

max_blocks-claim : (p : Pmm) (b : ℕ) → (claim b p).max_blocks ≡ p.max_blocks
unfolding claim bitmap_set
max_blocks-claim p b = refl

used_blocks-claim : (p : Pmm) (b : ℕ) → (claim b p).used_blocks ≡ u32 (p.used_blocks + 1)
unfolding claim bitmap_set
used_blocks-claim p b = refl

max_blocks-give_back : (p : Pmm) (b : ℕ) → (give_back b p).max_blocks ≡ p.max_blocks
unfolding give_back bitmap_clear
max_blocks-give_back p b = refl

used_blocks-give_back :
    (p : Pmm) (b : ℕ) → (give_back b p).used_blocks ≡ u32 (p.used_blocks + 2 ^ 32 - 1)
unfolding give_back bitmap_clear
used_blocks-give_back p b = refl

claim-IsValid :
    (p : Pmm) (b : ℕ) → b < p.max_blocks → usage p b ≡ 0 → IsValid p → IsValid (claim b p)
claim-IsValid p b lt free v = record {
  blocks_fit = rw (max_blocks-claim p b) v.blocks_fit;
  counted =
      simp (max_blocks-claim p b, used_blocks-claim p b)
        (omega (
          arith,
          v.counted,
          v.blocks_fit,
          used-le-max p v,
          free,
          count_below_change (usage p) (usage (claim b p)) b 1 p.max_blocks (usage-claim p b) lt,
        ));
}

give_back-IsValid :
    (p : Pmm) (b : ℕ) → b < p.max_blocks → usage p b ≡ 1 → IsValid p → IsValid (give_back b p)
give_back-IsValid p b lt busy v = record {
  blocks_fit = rw (max_blocks-give_back p b) v.blocks_fit;
  counted =
      simp (max_blocks-give_back p b, used_blocks-give_back p b)
        (omega (
          arith,
          v.counted,
          v.blocks_fit,
          used-le-max p v,
          busy,
          count_below_change (usage p) (usage (give_back b p)) b 0 p.max_blocks
              (usage-give_back p b) lt,
        ));
}

-- `pmm_free_block` gives back the block of the address if it is in use, and else does nothing.
pub free_block_lem :
    (p : Pmm) (addr : ℕ)
    → free_block addr p
      ≡ (if usage p (addr / block_size) == 0 then p else give_back (addr / block_size) p)
unfolding free_block
free_block_lem p addr =
    rw (bitmap_test-usage p (addr / block_size))
      (elim (Bool-cases (usage p (addr / block_size) == 0)) [ inl e ↦ rw e | inr e ↦ rw e ])

-- From a valid state `pmm_alloc_block` leads to a valid state: the counter stays in step with the bitmap.
pub alloc_block-IsValid : (p : Pmm) → IsValid p → IsValid (alloc_block p).1
alloc_block-IsValid p v = cases (alloc_block-Scanned p)
  where
    cases : Scanned p 0 p.max_blocks (alloc_block p) → IsValid (alloc_block p).1
    cases (inl (b, ge, lt, free, below, eq)) = rw eq (claim-IsValid p b lt free v)
    cases (inr (all, eq)) = rw eq v

-- `pmm_free_block` of an address below the end of memory keeps the counter in step, also where
-- the block is free already.
pub free_block-IsValid :
    (p : Pmm) (addr : ℕ)
    → addr / block_size < p.max_blocks
    → IsValid p
    → IsValid (free_block addr p)
free_block-IsValid p addr lt v =
    rw (free_block_lem p addr) (elim (Bool-cases (usage p (addr / block_size) == 0)) [
      | inl free ↦ rw free v
      | inr busy ↦ rw busy (
          give_back-IsValid p (addr / block_size) lt
            (ground (arith, usage-le-one p (addr / block_size))) v)
    ])

-- Where a block is free the scan finds the first such block.
pub alloc_block-first :
    (p : Pmm) (b : ℕ)
    → b < p.max_blocks
    → usage p b ≡ 0
    → AllUsed p 0 b
    → alloc_block p ≡ (u32 (b * block_size), claim b p)
alloc_block-first p b lt free below = cases (alloc_block-Scanned p)
  where
    cases :
        Scanned p 0 p.max_blocks (alloc_block p) → alloc_block p ≡ (u32 (b * block_size), claim b p)
    cases (inl (c, ge, hc, free_c, below_c, eq)) =
        let same : c ≡ b = elim (ℕ_discrete c b) [
          | yes e ↦ e
          | no ne ↦ absurd (grind (arith, below c, below_c b))
        ] in
        rw (← same) eq
    cases (inr (all, eq)) = absurd (omega (arith, all b (omega arith) lt))

-- Where `b` is the first free block of a valid state, freeing the block that was just allocated
-- restores the usage of every block, and the counter.
pub free_block-alloc_block :
    (p : Pmm) (b : ℕ)
    → IsValid p
    → b < p.max_blocks
    → usage p b ≡ 0
    → AllUsed p 0 b
    → ((c : ℕ) → usage (free_block (alloc_block p).0 (alloc_block p).1) c ≡ usage p c)
      × ((free_block (alloc_block p).0 (alloc_block p).1).used_blocks ≡ p.used_blocks)
free_block-alloc_block p b v lt free below =
    let address : u32 (b * block_size) / block_size ≡ b = omega (arith, v.blocks_fit) in
    let claimed : usage (claim b p) b ≡ 1 = ground (arith, usage-claim p b b) in
    let freed : free_block (u32 (b * block_size)) (claim b p) ≡ give_back b (claim b p) =
      free_block_lem (claim b p) (u32 (b * block_size)) ∙ rw (address, claimed) in
    rw (alloc_block-first p b lt free below, freed)
      (
        λ c. ground (arith, usage-give_back (claim b p) b c, usage-claim p b c),
        omega (
          arith,
          used_blocks-give_back (claim b p) b,
          used_blocks-claim p b,
          used-le-max p v,
          v.blocks_fit,
        ),
      )

-- From a valid state two successful allocations in a row do not return the same block (an address
-- of 0 stands for "out of memory").
pub alloc_block-alloc_block_ne :
    (p : Pmm)
    → IsValid p
    → (alloc_block p).0 ≢ 0
    → (alloc_block (alloc_block p).1).0 ≢ (alloc_block p).0
alloc_block-alloc_block_ne p v success = first (alloc_block-Scanned p)
  where
    second :
        (b : ℕ)
        → b < p.max_blocks
        → (u32 (b * block_size) ≢ 0)
        → Scanned (claim b p) 0 (claim b p).max_blocks (alloc_block (claim b p))
        → (alloc_block (claim b p)).0 ≢ u32 (b * block_size)
    second b lt ne (inl (c, ge, hc, free_c, below_c, eq)) =
        let smaller : c < p.max_blocks = rw (max_blocks-claim p b) at hc in
        rw eq λ same. ground (arith, usage-claim p b c, v.blocks_fit)
    second b lt ne (inr (all, eq)) = rw eq λ same. ne (sym same)

    first :
        Scanned p 0 p.max_blocks (alloc_block p)
        → (alloc_block (alloc_block p).1).0 ≢ (alloc_block p).0
    first (inl (b, ge, lt, free, below, eq)) =
        rw eq (second b lt (λ e. success (ap (λ t. t.0) eq ∙ e)) (alloc_block-Scanned (claim b p)))
    first (inr (all, eq)) = absurd (success (ap (λ t. t.0) eq))

-- In a valid state with the block at address 0 in use, `pmm_alloc_block` returns 0 exactly when no
-- block is free.
pub alloc_block-eq_zero_iff :
    (p : Pmm) → IsValid p → usage p 0 ≡ 1 → ((alloc_block p).0 ≡ 0) ↔ AllUsed p 0 p.max_blocks
alloc_block-eq_zero_iff p v zero_used = cases (alloc_block-Scanned p)
  where
    cases :
        Scanned p 0 p.max_blocks (alloc_block p)
        → ((alloc_block p).0 ≡ 0) ↔ AllUsed p 0 p.max_blocks
    cases (inl (b, ge, lt, free, below, eq)) = (
      λ zero_address. absurd (
          let at_zero : b ≡ 0 = omega (arith, ap (λ t. t.0) eq, zero_address, v.blocks_fit) in
          omega (arith, ap (usage p) at_zero, free, zero_used)),
      λ all. absurd (omega (arith, all b (omega arith) lt, free)),
    )
    cases (inr (all, eq)) = (λ _. all, λ _. ap (λ t. t.0) eq)
