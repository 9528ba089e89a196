-- ===== src/Process/First.antt =====
-- `process_initialize`: the code that runs becomes the first process.
use native.Mathlib.Decide.{ℕ_discrete}
use orbit_os.Base.{ℕ, ◌+◌, ◌*◌, ◌^◌, ◌≤◌, ◌<◌, ◌≡◌, ◌≢◌, ◌⊎◌, ◌∙◌, refl, arith, u32, inl, inr}
use orbit_os.Base.{[], ◌==◌, if◌then◌else◌}
use orbit_os.Memory.{Memory, load32, store32, load32-store32_ne, load32-store32_self}
use orbit_os.Pmm.{bitmap_set, Pmm, block_size, alloc_block, claim}
use orbit_os.Pmm.Bitmap.{usage}
use orbit_os.Pmm.Alloc.{alloc_block-Scanned, usage-claim}
use orbit_os.Pmm.Ready.{IsReady, usage-same_words, bitmap-claim}
use orbit_os.Process.{Processes, with_mem, initialize, next}
use orbit_os.Process.Allocate.{IsOrderly}

-- Two different blocks are free.
abbrev pub HasTwoFree : Pmm → Type 0
HasTwoFree p =
    (c1 c2 : ℕ) × (c1 ≢ c2)
    × (c1 < p.max_blocks)
    × (c2 < p.max_blocks)
    × (usage p c1 ≡ 0)
    × (usage p c2 ≡ 0)

zero_block : (b : ℕ) → b * block_size ≡ 0 → b ≡ 0
zero_block b z = omega arith

module _ (stack_pointer cr3 : ℕ) (s : Processes) (ready : IsReady s.pmm)
    (few : s.pmm.max_blocks < 2 ^ 20) where
  module _ (b : ℕ) (lt : b < s.pmm.max_blocks) (free : usage s.pmm b ≡ 0) where
    abbrev first : ℕ
    first = b * block_size

    abbrev after : Memory
    after =
        store32
          (store32 (store32 (store32 (claim b s.pmm).mem first s.next_pid) (first + 16) first)
            (first + 8) (stack_pointer + 4096))
          (first + 12) cr3

    abbrev result : Processes
    result = record s {
      pmm = with_mem after (claim b s.pmm);
      current_process = first;
      process_queue = first;
      next_pid = u32 (s.next_pid + 1);
    }

    load32-after :
        (a : ℕ) → (a + 4 ≤ first) ⊎ (first + 20 ≤ a) → load32 after a ≡ load32 (claim b s.pmm).mem a
    load32-after a off =
        let m1 = store32 (claim b s.pmm).mem first s.next_pid in
        let m2 = store32 m1 (first + 16) first in
        let m3 = store32 m2 (first + 8) (stack_pointer + 4096) in
        load32-store32_ne m3 (first + 12) cr3 a (omega arith)
        ∙ load32-store32_ne m2 (first + 8) (stack_pointer + 4096) a (omega arith)
        ∙ load32-store32_ne m1 (first + 16) first a (omega arith)
        ∙ load32-store32_ne (claim b s.pmm).mem first s.next_pid a (omega arith)

    next-first : next after first ≡ first
    next-first =
        let m1 = store32 (claim b s.pmm).mem first s.next_pid in
        let m2 = store32 m1 (first + 16) first in
        let m3 = store32 m2 (first + 8) (stack_pointer + 4096) in
        load32-store32_ne m3 (first + 12) cr3 (first + 16) (omega arith)
        ∙ load32-store32_ne m2 (first + 8) (stack_pointer + 4096) (first + 16) (omega arith)
        ∙ load32-store32_self m1 (first + 16) first
        ∙ omega (arith, few)

    usage-result : (c : ℕ) → c < 2 ^ 20 → usage result.pmm c ≡ (if b == c then 1 else usage s.pmm c)
    usage-result c h =
        usage-same_words (claim b s.pmm) result.pmm c refl
          (λ a ge le.
            load32-after a (omega (arith, ready.free_off b lt free, bitmap-claim s.pmm b)))
          h
        ∙ usage-claim s.pmm b c

    max_blocks-result : result.pmm.max_blocks ≡ s.pmm.max_blocks
    unfolding claim bitmap_set
    max_blocks-result = refl

    still_free :
        (c : ℕ) → c < s.pmm.max_blocks → usage result.pmm c ≡ 0 → (usage s.pmm c ≡ 0) × (b ≢ c)
    still_free c h free' = ground (arith, usage-result c (omega arith), free')

    result-IsOrderly : IsOrderly result []
    result-IsOrderly = record {
      ready = record {
        blocks_fit = rw max_blocks-result ready.blocks_fit;
        zero_used = ground (arith, usage-result 0 (omega arith), ready.zero_used);
        free_off = λ c h free'. omega (
          arith,
          bitmap-claim s.pmm b,
          ready.free_off c (omega (arith, max_blocks-result))
              (still_free c (omega (arith, max_blocks-result)) free').0,
        );
      };
      few_blocks = rw max_blocks-result few;
      queue_word = omega (arith, few);
      ring = (next-first, (tt, tt));
      placed = (
        record {
          off_bitmap = omega (arith, bitmap-claim s.pmm b, ready.free_off b lt free);
          off_free =
              λ c h free'. omega (arith, (still_free c (omega (arith, max_blocks-result)) free').1);
        },
        tt,
      );
    }

    -- A free block that is not the record's stays free.
    other_free : (c : ℕ) → c < s.pmm.max_blocks → usage s.pmm c ≡ 0 → b ≢ c → usage result.pmm c ≡ 0
    other_free c h free' ne = ground (arith, usage-result c (omega arith), free')

    two_left :
        (c : ℕ)
        → b ≢ c
        → c < s.pmm.max_blocks
        → usage s.pmm c ≡ 0
        → (d : ℕ) → b ≢ d
        → d < s.pmm.max_blocks
        → usage s.pmm d ≡ 0
        → c ≢ d
        → HasTwoFree result.pmm
    two_left c ne h free_c d ne' h' free_d differ = (
      c,
      d,
      differ,
      omega (arith, max_blocks-result),
      omega (arith, max_blocks-result),
      other_free c h free_c ne,
      other_free d h' free_d ne',
    )

    initialize-result :
        alloc_block s.pmm ≡ (u32 (b * block_size), claim b s.pmm)
        → initialize stack_pointer cr3 s ≡ result
    unfolding initialize
    initialize-result eq =
        let place : u32 (b * block_size) ≡ b * block_size = omega (arith, few) in
        rw (eq, place) refl

  -- Where three blocks are free, `process_initialize` makes a run queue of one process, which is the
  -- current one and not null, and two blocks are free still.
  pub initialize-IsOrderly :
      (c1 c2 c3 : ℕ)
      → c1 ≢ c2
      → c1 ≢ c3
      → c2 ≢ c3
      → c1 < s.pmm.max_blocks
      → c2 < s.pmm.max_blocks
      → c3 < s.pmm.max_blocks
      → usage s.pmm c1 ≡ 0
      → usage s.pmm c2 ≡ 0
      → usage s.pmm c3 ≡ 0
      → IsOrderly (initialize stack_pointer cr3 s) []
        × ((initialize stack_pointer cr3 s).current_process
            ≡ (initialize stack_pointer cr3 s).process_queue)
        × ((initialize stack_pointer cr3 s).process_queue ≢ 0)
        × HasTwoFree (initialize stack_pointer cr3 s).pmm
  initialize-IsOrderly c1 c2 c3 n12 n13 n23 h1 h2 h3 free1 free2 free3 =
      elim (alloc_block-Scanned s.pmm) [
        | inr (all, _) ↦ absurd (omega (arith, all c1 (omega arith) h1))
        | inl (b, _, lt, free, _, eq) ↦ rw (initialize-result b lt free eq) (
          result-IsOrderly b lt free,
          refl,
          λ z. absurd (omega (arith, ready.zero_used, rw (zero_block b z) at free)),
          elim (ℕ_discrete b c1) [
            | yes e1 ↦ two_left b lt free c2 (omega arith) h2 free2 c3 (omega arith) h3 free3 n23
            | no ne1 ↦ elim (ℕ_discrete b c2) [
              | yes e2 ↦ two_left b lt free c1 ne1 h1 free1 c3 (omega arith) h3 free3 n13
              | no ne2 ↦ two_left b lt free c1 ne1 h1 free1 c2 ne2 h2 free2 n12
            ]
          ],
        )
      ]
