-- ===== src/Pmm/Walk.antt =====
-- The walk over the memory map of the boot loader.
use native.Mathlib.Decide.{ℕ_discrete}
use orbit_os.Base.{ℕ, suc, ◌+◌, ◌-◌, ◌*◌, ◌%◌, ◌^◌, ◌≤◌, ◌<◌, ◌≡◌, ◌≢◌, ◌⊎◌, refl, arith, sym}
use orbit_os.Base.{◌==◌, if◌then◌else◌, ltb, leb, ◌&&◌, ◌||◌, ◌∙◌, List, [], ◌∷◌}
use orbit_os.Base.{Bool, true, false, some}
use orbit_os.Memory.{Memory, load8, load32-same}
use orbit_os.Multiboot
use orbit_os.Pmm.{Pmm, block_size, free_region, free_entry}
use orbit_os.Pmm.Bitmap.{usage}
use orbit_os.Pmm.Region.{bitmap_span, IsFreed, free_region-IsFreed}

-- What an entry of the map says.
pub record MapEntry : Type 0 where
  pub size : ℕ
  pub addr : ℕ
  pub len : ℕ
  pub kind : ℕ

-- The entries stand in memory from `a` up to `stop`, each followed by the next; `size` does not
-- count its own four bytes.
abbrev pub HasMap : Memory → ℕ → ℕ → List MapEntry → Type 0
HasMap m a stop [] = a ≡ stop
HasMap m a stop (x ∷ xs) =
    (Multiboot.entry_size m a ≡ x.size)
    × (Multiboot.addr_low m a ≡ x.addr)
    × (Multiboot.len_low m a ≡ x.len)
    × (Multiboot.entry_type m a ≡ x.kind)
    × (20 ≤ x.size)
    × (a + x.size + 4 ≤ stop)
    × HasMap m (a + x.size + 4) stop xs

-- Available regions are whole blocks below 4 GB.
abbrev pub IsAligned : List MapEntry → Type 0
IsAligned [] = Unit
IsAligned (x ∷ xs) =
    (x.addr % block_size ≡ 0)
    × (x.addr + x.len ≤ 2 ^ 32)
    × (x.len ≤ 2 ^ 32 - block_size)
    × IsAligned xs

-- Block `c` starts in an available region of the map.
unfoldable pub covers : MapEntry → ℕ → Bool
covers x c =
    x.kind == Multiboot.memory_available
    && (leb x.addr (c * block_size) && ltb (c * block_size) (x.addr + x.len))

unfoldable pub covered : List MapEntry → ℕ → Bool
unfolding covers
covered [] c = false
covered (x ∷ xs) c = covers x c || covered xs c

-- `q` is `p` with the blocks freed that `free` names and that do not start below `safe`. Its
-- memory differs inside the bitmap only.
pub record IsReleased (safe : ℕ) (free : ℕ → Bool) (p q : Pmm) : Type 0 where
  pub same_bitmap : q.bitmap ≡ p.bitmap
  pub same_blocks : q.max_blocks ≡ p.max_blocks
  pub usages : (c : ℕ) → usage q c ≡ (if free c && leb safe (c * block_size) then 0 else usage p c)
  pub outside :
      (a : ℕ) → (a < p.bitmap) ⊎ (p.bitmap + bitmap_span ≤ a) → load8 q.mem a ≡ load8 p.mem a

pub IsReleased-none : (safe : ℕ) (p : Pmm) → IsReleased safe (λ c. false) p p
IsReleased-none safe p = record {
  same_bitmap = refl;
  same_blocks = refl;
  usages = λ c. refl;
  outside = λ a out. refl;
}

pub IsReleased-or :
    (safe : ℕ) (f g : ℕ → Bool) (p q r : Pmm)
    → IsReleased safe f p q
    → IsReleased safe g q r
    → IsReleased safe (λ c. f c || g c) p r
IsReleased-or safe f g p q r first second = record {
  same_bitmap = second.same_bitmap ∙ first.same_bitmap;
  same_blocks = second.same_blocks ∙ first.same_blocks;
  usages = λ c.
      second.usages c
      ∙ rw (first.usages c) (join (f c) (g c) (leb safe (c * block_size)) (usage p c));
  outside = λ a out. second.outside a (rw first.same_bitmap out) ∙ first.outside a out;
}
  where
    join :
        (x y s : Bool) (u : ℕ)
        → (if y && s then 0 else if x && s then 0 else u) ≡ (if (x || y) && s then 0 else u)
    join true true true u = refl
    join true true false u = refl
    join true false true u = refl
    join true false false u = refl
    join false true true u = refl
    join false true false u = refl
    join false false s u = refl

IsFreed-IsReleased :
    (safe : ℕ) (x : MapEntry) (p q : Pmm)
    → x.kind ≡ Multiboot.memory_available
    → IsFreed safe (x.addr + 0) (x.addr + x.len) p q
    → IsReleased safe (covers x) p q
unfolding covers
IsFreed-IsReleased safe x p q kind f = record {
  same_bitmap = f.same_bitmap;
  same_blocks = f.same_blocks;
  usages = λ c. ground (arith, f.usages c);
  outside = f.outside;
}

free_entry_available :
    (fuel safe a : ℕ) (x : MapEntry) (p : Pmm)
    → Multiboot.addr_low p.mem a ≡ x.addr
    → Multiboot.len_low p.mem a ≡ x.len
    → Multiboot.entry_type p.mem a ≡ Multiboot.memory_available
    → free_entry fuel safe a p ≡ free_region fuel safe x.addr x.len 0 p
unfolding free_entry
free_entry_available fuel safe a x p ha hl hk = rw (ha, hl, hk)

free_entry_other :
    (fuel safe a : ℕ) (p : Pmm)
    → Multiboot.entry_type p.mem a ≢ Multiboot.memory_available
    → free_entry fuel safe a p ≡ some p
unfolding free_entry
free_entry_other fuel safe a p ne =
    let test : (Multiboot.entry_type p.mem a == Multiboot.memory_available) ≡ false =
      ground arith in
    rw test

IsReleased-other :
    (safe : ℕ) (x : MapEntry) (p : Pmm)
    → x.kind ≢ Multiboot.memory_available
    → IsReleased safe (covers x) p p
unfolding covers
IsReleased-other safe x p ne = record {
  same_bitmap = refl;
  same_blocks = refl;
  usages = λ c. ground arith;
  outside = λ a out. refl;
}

-- One entry, in memory at `a`.
pub free_entry-IsReleased :
    (rounds safe a : ℕ) (x : MapEntry) (p : Pmm)
    → 2 ^ 20 ≤ rounds
    → Multiboot.addr_low p.mem a ≡ x.addr
    → Multiboot.len_low p.mem a ≡ x.len
    → Multiboot.entry_type p.mem a ≡ x.kind
    → x.addr % block_size ≡ 0
    → x.addr + x.len ≤ 2 ^ 32
    → x.len ≤ 2 ^ 32 - block_size
    → (q : Pmm) × (free_entry (suc rounds) safe a p ≡ some q) × IsReleased safe (covers x) p q
free_entry-IsReleased rounds safe a x p enough ha hl hk aligned fits short =
    elim (ℕ_discrete x.kind Multiboot.memory_available) [
      | yes e ↦
          let (q, runs, freed) =
            free_region-IsFreed safe x.addr x.len aligned fits short rounds 0 p (omega arith)
              (omega arith) in
          (
            q,
            free_entry_available (suc rounds) safe a x p ha hl (hk ∙ e) ∙ runs,
            IsFreed-IsReleased safe x p q e freed,
          )
      | no ne ↦ (
        p,
        free_entry_other (suc rounds) safe a p (λ e. ne (sym hk ∙ e)),
        IsReleased-other safe x p ne,
      )
    ]

-- The map stays where memory between its ends is left alone.
pub HasMap-same :
    (m m' : Memory) (a stop : ℕ) (xs : List MapEntry)
    → ((b : ℕ) → a ≤ b → b < stop → load8 m' b ≡ load8 m b)
    → HasMap m a stop xs
    → HasMap m' a stop xs
HasMap-same m m' a stop [] same h = h
HasMap-same m m' a stop (x ∷ xs) same (hs, ha, hl, hk, big, fits, rest) = (
  load32-same m m' a (λ b ge lt. same b (omega arith) (omega arith)) ∙ hs,
  load32-same m m' (a + 4) (λ b ge lt. same b (omega arith) (omega arith)) ∙ ha,
  load32-same m m' (a + 12) (λ b ge lt. same b (omega arith) (omega arith)) ∙ hl,
  load32-same m m' (a + 20) (λ b ge lt. same b (omega arith) (omega arith)) ∙ hk,
  big,
  fits,
  HasMap-same m m' (a + x.size + 4) stop xs (λ b ge lt. same b (omega arith) lt) rest,
)
