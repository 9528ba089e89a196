-- ===== src/Process/Create.antt =====
-- `process_create_thread` as a whole: the new thread in the run queue.
use orbit_os.Base.{ℕ, ◌+◌, ◌*◌, ◌^◌, ◌≤◌, ◌<◌, ◌≡◌, ◌≢◌, ◌⊎◌, ◌∙◌, refl, arith, u32}
use orbit_os.Base.{List, [], ◌∷◌, ◌++◌, All, All-append, All-map, ◌==◌, if◌then◌else◌}
use orbit_os.Memory.{Memory, load32, store32, load32-store32_ne}
use orbit_os.Pmm.{bitmap_set, block_size, claim}
use orbit_os.Pmm.Bitmap.{usage}
use orbit_os.Pmm.Region.{bitmap_span}
use orbit_os.Pmm.Ready.{IsReady, usage-same_words}
use orbit_os.Process.{Processes, with_mem, prepare, link}
use orbit_os.Process.Ring.{IsRing, Apart, AllApart, last, IsRing-link}
use orbit_os.Process.Turns.{Linked-same}
use orbit_os.Process.Prepare.{IsPrepared, IsPrepared-same}
use orbit_os.Process.Allocate.{
  IsPlaced, IsOrderly, proc, named, both, usage-both, second_free, load32-filled, bitmap-filled,
  filled-IsPrepared, bitmap-both, blocks_differ,
}

All-last : (P : ℕ → Type 0) (a : ℕ) (xs : List ℕ) → All P (a ∷ xs) → P (last a xs)
All-last P a [] h = h.0
All-last P a (x ∷ xs) h = All-last P x xs h.1

AllApart-All : (p : ℕ) (xs : List ℕ) → All (Apart p) xs → AllApart p xs
AllApart-All p [] h = tt
AllApart-All p (x ∷ xs) h = (h.0, AllApart-All p xs h.1)

load32-link :
    (queue proc tail a : ℕ) (m : Memory)
    → (a + 4 ≤ tail + 16) ⊎ (tail + 20 ≤ a)
    → (a + 4 ≤ proc + 16) ⊎ (proc + 20 ≤ a)
    → load32 (link queue proc tail m) a ≡ load32 m a
unfolding link
load32-link queue proc tail a m off off' =
    load32-store32_ne (store32 m (tail + 16) proc) (proc + 16) queue a (omega arith)
    ∙ load32-store32_ne m (tail + 16) proc a (omega arith)

module _ (s : Processes) (xs : List ℕ) (h : IsOrderly s xs) (b1 b2 : ℕ)
    (lt1 : b1 < s.pmm.max_blocks) (lt2 : b2 < s.pmm.max_blocks) (free1 : usage s.pmm b1 ≡ 0)
    (free2 : usage (named s.pmm s.next_pid b1) b2 ≡ 0) (thread_exit entry_point cr3 : ℕ) where
  abbrev pub new : ℕ
  new = b1 * block_size

  abbrev pub top : ℕ
  top = b2 * block_size + 4096

  abbrev pub before : Memory
  before =
      prepare thread_exit entry_point cr3 (b2 * block_size) new (both s.pmm s.next_pid b1 b2).mem

  abbrev pub tail : ℕ
  tail = last s.process_queue xs

  abbrev pub after : Memory
  after = link s.process_queue new tail before

  abbrev pub result : Processes
  result = record s {
    pmm = with_mem after (both s.pmm s.next_pid b1 b2);
    next_pid = u32 (s.next_pid + 1);
  }

  free2' : usage s.pmm b2 ≡ 0
  free2' = second_free s.pmm s.next_pid b1 b2 h.ready h.few_blocks lt1 lt2 free1 free2

  differ : b2 ≢ b1
  differ = blocks_differ s.pmm s.next_pid b1 b2 h.ready h.few_blocks lt1 lt2 free1 free2

  tail-IsPlaced : IsPlaced s.pmm tail
  tail-IsPlaced = All-last (IsPlaced s.pmm) s.process_queue xs h.placed

  pub before-IsRing : IsRing before s.process_queue xs
  before-IsRing = (
    Linked-same s.pmm.mem before (IsPlaced s.pmm) s.process_queue xs s.process_queue
        (λ r placed.
          load32-filled s.pmm s.next_pid b1 b2 h.ready h.few_blocks lt1 lt2 free1 free2 thread_exit
            entry_point cr3 (r + 16) (omega (arith, placed.off_bitmap))
            (omega (arith, placed.off_free b1 lt1 free1))
            (omega (arith, placed.off_free b2 lt2 free2')))
        h.placed h.ring.0,
    h.ring.1,
  )

  after-IsRing : IsRing after s.process_queue (xs ++ new ∷ [])
  after-IsRing =
      IsRing-link before s.process_queue new xs h.queue_word (omega (arith, h.few_blocks))
        before-IsRing
        (AllApart-All new (s.process_queue ∷ xs) (
          All-map (IsPlaced s.pmm) (Apart new)
            (λ r placed. omega (arith, placed.off_free b1 lt1 free1)) (s.process_queue ∷ xs)
            h.placed))

  pub after-IsPrepared : IsPrepared after thread_exit entry_point cr3 top s.next_pid new
  after-IsPrepared =
      IsPrepared-same before after thread_exit entry_point cr3 top s.next_pid new (omega arith)
        (λ a ge le.
          load32-link s.process_queue new tail a before
            (omega (arith, tail-IsPlaced.off_free b2 lt2 free2')) (omega (arith, differ)))
        (λ a ge le.
          load32-link s.process_queue new tail a before
            (omega (arith, tail-IsPlaced.off_free b1 lt1 free1)) (omega arith))
        (filled-IsPrepared s.pmm s.next_pid b1 b2 h.ready h.few_blocks lt1 lt2 free1 free2
          thread_exit entry_point cr3)

  usage-result :
      (c : ℕ)
      → c < 2 ^ 20
      → usage result.pmm c ≡ (if b2 == c then 1 else if b1 == c then 1 else usage s.pmm c)
  usage-result c lt =
      usage-same_words (both s.pmm s.next_pid b1 b2) result.pmm c refl
        (λ a ge le.
          let ge' : s.pmm.bitmap ≤ a = omega (arith, bitmap-both s.pmm s.next_pid b1 b2) in
          let le' : a + 4 ≤ s.pmm.bitmap + bitmap_span =
            omega (arith, bitmap-both s.pmm s.next_pid b1 b2) in
          load32-link s.process_queue new tail a before (omega (arith, tail-IsPlaced.off_bitmap))
            (omega (arith, h.ready.free_off b1 lt1 free1))
          ∙ bitmap-filled s.pmm s.next_pid b1 b2 h.ready h.few_blocks lt1 lt2 free1 free2
              thread_exit entry_point cr3 a ge' le')
        lt
      ∙ usage-both s.pmm s.next_pid b1 b2 h.ready h.few_blocks lt1 lt2 free1 free2 c lt

  -- A block that is free afterwards was free before, and is neither of the two.
  still_free :
      (c : ℕ)
      → c < s.pmm.max_blocks
      → usage result.pmm c ≡ 0
      → (usage s.pmm c ≡ 0) × (b1 ≢ c) × (b2 ≢ c)
  still_free c lt free = ground (arith, usage-result c (omega (arith, h.few_blocks)), free)

  max_blocks-result : result.pmm.max_blocks ≡ s.pmm.max_blocks
  unfolding claim bitmap_set
  max_blocks-result = refl

  result-IsReady : IsReady result.pmm
  result-IsReady = record {
    blocks_fit = rw max_blocks-result h.ready.blocks_fit;
    zero_used = ground (arith, usage-result 0 (omega arith), h.ready.zero_used);
    free_off = λ c lt free. omega (
      arith,
      bitmap-both s.pmm s.next_pid b1 b2,
      h.ready.free_off c (omega (arith, max_blocks-result))
          (still_free c (omega (arith, max_blocks-result)) free).0,
    );
  }

  IsPlaced-result : (r : ℕ) → IsPlaced s.pmm r → IsPlaced result.pmm r
  IsPlaced-result r placed = record {
    off_bitmap = omega (arith, bitmap-both s.pmm s.next_pid b1 b2, placed.off_bitmap);
    off_free = λ c lt free.
        placed.off_free c (omega (arith, max_blocks-result))
          (still_free c (omega (arith, max_blocks-result)) free).0;
  }

  new-IsPlaced : IsPlaced result.pmm new
  new-IsPlaced = record {
    off_bitmap = omega (arith, bitmap-both s.pmm s.next_pid b1 b2, h.ready.free_off b1 lt1 free1);
    off_free = λ c lt free. omega (arith, (still_free c (omega (arith, max_blocks-result)) free).1);
  }

  pub result-IsOrderly : IsOrderly result (xs ++ new ∷ [])
  result-IsOrderly = record {
    ready = result-IsReady;
    few_blocks = rw max_blocks-result h.few_blocks;
    queue_word = h.queue_word;
    ring = after-IsRing;
    placed =
        All-append (IsPlaced result.pmm) (s.process_queue ∷ xs) (new ∷ [])
          (All-map (IsPlaced s.pmm) (IsPlaced result.pmm) IsPlaced-result (s.process_queue ∷ xs)
            h.placed)
          (new-IsPlaced, tt);
  }
