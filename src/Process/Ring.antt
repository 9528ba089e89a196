-- ===== src/Process/Ring.antt =====
-- The run queue as a circular list, and how a new process enters it.
use orbit_os.Base.{ℕ, zero, suc, ◌+◌, ◌<◌, ◌≤◌, ◌≡◌, ◌≢◌, ◌⊎◌, ◌∙◌, refl, arith, some}
use orbit_os.Base.{List, [], ◌∷◌, ◌++◌, length, ◌^◌}
use orbit_os.Memory.{Memory, store32, load32-store32_ne, load32-store32_self}
use orbit_os.Process.{next, find_tail, link, enqueue}

-- The `next` fields lead from `a` through `xs` to `stop`, and to `stop` at the end only.
abbrev pub Linked : Memory → ℕ → List ℕ → ℕ → Type 0
Linked m a [] stop = next m a ≡ stop
Linked m a (x ∷ xs) stop = (next m a ≡ x) × (x ≢ stop) × Linked m x xs stop

-- The records of two processes do not overlap.
abbrev pub Apart : ℕ → ℕ → Type 0
Apart p q = (p + 20 ≤ q) ⊎ (q + 20 ≤ p)

abbrev pub AllApart : ℕ → List ℕ → Type 0
AllApart p [] = Unit
AllApart p (q ∷ qs) = Apart p q × AllApart p qs

abbrev pub IsSpread : List ℕ → Type 0
IsSpread [] = Unit
IsSpread (p ∷ ps) = AllApart p ps × IsSpread ps

abbrev pub last : ℕ → List ℕ → ℕ
last a [] = a
last a (x ∷ xs) = last x xs

-- The run queue: it starts at `queue`, goes on through `xs`, and comes back.
abbrev pub IsRing : Memory → ℕ → List ℕ → Type 0
IsRing m queue xs = Linked m queue xs queue × IsSpread (queue ∷ xs)

pub find_tail_lem :
    (m : Memory) (queue a : ℕ) (xs : List ℕ) (fuel : ℕ)
    → Linked m a xs queue
    → length xs < fuel
    → find_tail fuel m queue a ≡ some (last a xs)
unfolding find_tail
find_tail_lem m queue a xs zero l f = absurd (omega arith)
find_tail_lem m queue a [] (suc fuel) l f = ground arith
find_tail_lem m queue a (x ∷ xs) (suc fuel) l f =
    let rest : find_tail fuel m queue x ≡ some (last x xs) =
      find_tail_lem m queue x xs fuel l.2 (omega arith) in
    rw l.0 (ground (arith, rest))

AllApart-last : (p a : ℕ) (xs : List ℕ) → Apart p a → AllApart p xs → Apart p (last a xs)
AllApart-last p a [] h hs = h
AllApart-last p a (x ∷ xs) h hs = AllApart-last p x xs hs.0 hs.1

-- A write to the `next` field of another process does not change that of `p`.
next-link :
    (m : Memory) (queue proc tail p : ℕ)
    → Apart p proc
    → Apart p tail
    → next (link queue proc tail m) p ≡ next m p
unfolding link
next-link m queue proc tail p h k =
    load32-store32_ne (store32 m (tail + 16) proc) (proc + 16) queue (p + 16) (omega arith)
    ∙ load32-store32_ne m (tail + 16) proc (p + 16) (omega arith)

Linked-link :
    (m : Memory) (queue proc a : ℕ) (xs : List ℕ)
    → queue < 2 ^ 32
    → proc < 2 ^ 32
    → proc ≢ queue
    → Linked m a xs queue
    → IsSpread (a ∷ xs)
    → AllApart proc (a ∷ xs)
    → Linked (link queue proc (last a xs) m) a (xs ++ proc ∷ []) queue
unfolding link
Linked-link m queue proc a [] bq bp ne l spread apart = (
  load32-store32_ne (store32 m (a + 16) proc) (proc + 16) queue (a + 16) (omega arith)
      ∙ load32-store32_self m (a + 16) proc
      ∙ omega arith,
  ne,
  load32-store32_self (store32 m (a + 16) proc) (proc + 16) queue ∙ omega arith,
)
Linked-link m queue proc a (x ∷ xs) bq bp ne l spread apart = (
  next-link m queue proc (last x xs) a (omega arith) (AllApart-last a x xs spread.0.0 spread.0.1)
      ∙ l.0,
  l.1,
  Linked-link m queue proc x xs bq bp ne l.2 spread.1 apart.1,
)

AllApart-append : (p q : ℕ) (xs : List ℕ) → AllApart p xs → Apart p q → AllApart p (xs ++ q ∷ [])
AllApart-append p q [] h k = (k, tt)
AllApart-append p q (x ∷ xs) h k = (h.0, AllApart-append p q xs h.1 k)

pub IsSpread-append : (q : ℕ) (xs : List ℕ) → IsSpread xs → AllApart q xs → IsSpread (xs ++ q ∷ [])
IsSpread-append q [] h k = (tt, tt)
IsSpread-append q (x ∷ xs) h k =
    (AllApart-append x q xs h.0 (omega arith), IsSpread-append q xs h.1 k.1)

-- The ring after the new process is linked behind the last one.
pub IsRing-link :
    (m : Memory) (queue proc : ℕ) (xs : List ℕ)
    → queue < 2 ^ 32
    → proc < 2 ^ 32
    → IsRing m queue xs
    → AllApart proc (queue ∷ xs)
    → IsRing (link queue proc (last queue xs) m) queue (xs ++ proc ∷ [])
IsRing-link m queue proc xs bq bp ring apart = (
  Linked-link m queue proc queue xs bq bp (omega arith) ring.0 ring.1 apart,
  IsSpread-append proc (queue ∷ xs) ring.1 apart,
)

-- Where the run queue is a ring of records that do not overlap, with fuel for every process and a
-- new record that overlaps none of theirs, the end of `process_create_thread` finds the tail and
-- leaves a ring with the new process at its end.
pub IsRing-enqueue :
    (m : Memory) (queue proc fuel : ℕ) (xs : List ℕ)
    → queue < 2 ^ 32
    → proc < 2 ^ 32
    → IsRing m queue xs
    → AllApart proc (queue ∷ xs)
    → length xs < fuel
    → (m' : Memory) × (enqueue fuel queue proc m ≡ some m') × IsRing m' queue (xs ++ proc ∷ [])
unfolding enqueue
IsRing-enqueue m queue proc fuel xs bq bp ring apart f = (
  link queue proc (last queue xs) m,
  rw (find_tail_lem m queue queue xs fuel ring.0 f) refl,
  IsRing-link m queue proc xs bq bp ring apart,
)
