-- ===== src/E1000/Window.antt =====
-- `e1000_initialize` and the page tables: the window of the card's registers.
use mathlib.Core.Path.{subst}
use native.Mathlib.Decide.{ℕ_discrete}
use orbit_os.Base.{
  ℕ, zero, suc, ◌+◌, ◌*◌, ◌/◌, ◌%◌, ◌^◌, ◌≤◌, ◌<◌, ◌≡◌, ◌⊎◌, ◌∙◌, refl, arith, ap, sym, inl, inr,
  some, none, Option, u32,
}
use orbit_os.Base.{true, false, ◌==◌, leb, ltb, ◌&&◌, if◌then◌else◌}
use orbit_os.Pci.{Log, Device, Place, find_device}
use orbit_os.Vmm.{Vmm, map_page, map_all, writable}
use orbit_os.Vmm.Walk.{translate}
use orbit_os.Vmm.Paged.{IsPaged}
use orbit_os.Vmm.Map.{IsMapped, map_page-IsMapped}
use orbit_os.Vmm.Identity.{IsFull}
use orbit_os.E1000.{E1000, set_up, initialize, vendor, device}

-- The addresses from `lo` to `hi` map to themselves, the others as before.
abbrev pub IsWindow : ℕ → ℕ → Vmm → Vmm → Type 0
IsWindow lo hi v v' =
    (v'.page_directory ≡ v.page_directory)
    × ((a : ℕ)
        → a < 2 ^ 32
        → translate v'.pmm.mem v'.page_directory a
          ≡ (if leb lo a && ltb a hi then some a else translate v.pmm.mem v.page_directory a))

IsWindow-step :
    (start i : ℕ) (v v1 v2 : Vmm)
    → start % 4096 ≡ 0
    → IsWindow start (start + i * 4096) v v1
    → IsMapped (start + i * 4096) (start + i * 4096) v1 v2
    → IsWindow start (start + (i + 1) * 4096) v v2
IsWindow-step start i v v1 v2 aligned (same1, before) (paged, same2, remapped) = (
  same2 ∙ same1,
  λ a lt. rw same2 (
      remapped a lt ∙ elim (ℕ_discrete (a / 4096) ((start + i * 4096) / 4096)) [
        | yes e ↦
            let test : (a / 4096 == (start + i * 4096) / 4096) ≡ true = ground (arith, e) in
            let inside : (leb start a && ltb a (start + (i + 1) * 4096)) ≡ true =
              ground (arith, e, aligned) in
            rw (test, inside) (ap some (omega (arith, e, aligned)))
        | no ne ↦
            let test : (a / 4096 == (start + i * 4096) / 4096) ≡ false = ground (arith, ne) in
            let inside : (leb start a && ltb a (start + (i + 1) * 4096))
                ≡ (leb start a && ltb a (start + i * 4096)) =
              ground (arith, ne, aligned) in
            rw (test, inside) (before a lt)
      ]),
)

map_all-IsWindow :
    (left start i flags : ℕ) (v v1 : Vmm)
    → start % 4096 ≡ 0
    → start + (i + left) * 4096 ≤ 2 ^ 32
    → flags < 4096
    → IsPaged v1
    → IsWindow start (start + i * 4096) v v1
    → (IsPaged (map_all left start i flags v1)
        × IsWindow start (start + (i + left) * 4096) v (map_all left start i flags v1))
      ⊎ ((k : ℕ) × (k < left) × IsFull (map_all k start i flags v1))
unfolding map_all
map_all-IsWindow zero start i flags v v1 aligned fits hf paged before =
    let end : i + 0 ≡ i = omega arith in inl (paged, rw end before)
map_all-IsWindow (suc left) start i flags v v1 aligned fits hf paged before =
    let page = start + i * 4096 in
    let place : u32 page ≡ page = omega arith in
    elim (map_page-IsMapped page page flags (omega arith) (omega arith) hf v1 paged) [
      | inl mapped ↦
          let next = map_page page page flags v1 in
          let count : i + 1 + left ≡ i + suc left = omega arith in
          elim (map_all-IsWindow left start (i + 1) flags v next aligned (omega arith) hf mapped.0
            (IsWindow-step start i v v1 next aligned before mapped)) [
              | inl done ↦
                  inl (rw (map_all, place) done.0, rw (map_all, place) (rw count at done.1))
              | inr (k, lt, full) ↦ inr (suc k, omega arith, rw (map_all, place) full)
            ]
      | inr (missing, full, e) ↦ inr (0, omega arith, full)
    ]

IsWindow-start : (start : ℕ) (v : Vmm) → IsWindow start (start + 0 * 4096) v v
IsWindow-start start v = (refl, λ a lt. ground arith)

-- The window of a card that was found: 1 MB at its base, unless memory runs out on the way.
abbrev pub IsSetUp : Vmm → Vmm → E1000 → Type 0
IsSetUp v v' e =
    (e.found ≡ true)
    × ((IsPaged v' × IsWindow e.mmio_base (e.mmio_base + 2 ^ 20) v v')
        ⊎ ((k : ℕ) × (k < 256) × IsFull (map_all k e.mmio_base 0 writable v)))

module _ (dev : Device) (window : ℕ → ℕ) (place : Place) (log log1 : Log) (v : Vmm)
    (e : E1000) where
  set_up-IsSetUp :
      IsPaged v
      → (set_up dev window place log1 v e).2.mmio_base % 4096 ≡ 0
      → (set_up dev window place log1 v e).2.mmio_base + 2 ^ 20 ≤ 2 ^ 32
      → IsSetUp v (set_up dev window place log1 v e).1 (set_up dev window place log1 v e).2
  unfolding set_up
  set_up-IsSetUp paged aligned fits =
      let base = (set_up dev window place log1 v e).2.mmio_base in
      (
        refl,
        map_all-IsWindow 256 base 0 writable v v aligned (omega arith) (omega arith) paged
            (IsWindow-start base v),
      )

  initialize-set_up :
      find_device dev vendor device log ≡ (some place, log1)
      → initialize dev window log v e ≡ set_up dev window place log1 v e
  unfolding initialize
  initialize-set_up there =
      ap
        (λ (r : Option Place × Log). elim r.0 [
          | none ↦ (r.1, v, e)
          | some p ↦ set_up dev window p r.1 v e
        ])
        there

  -- Where the bus has the card, the tables are good, and the card's window is aligned to pages and
  -- ends below 2 ^ 32, `e1000_initialize` finds the card and maps each address of its window of 1 MB
  -- to itself, and changes the translation of no other address; or after some of the 256 pages no
  -- block is free.
  pub initialize-IsSetUp :
      find_device dev vendor device log ≡ (some place, log1)
      → IsPaged v
      → (initialize dev window log v e).2.mmio_base % 4096 ≡ 0
      → (initialize dev window log v e).2.mmio_base + 2 ^ 20 ≤ 2 ^ 32
      → IsSetUp v (initialize dev window log v e).1 (initialize dev window log v e).2
  initialize-IsSetUp there paged =
      subst (λ r. r.2.mmio_base % 4096 ≡ 0 → r.2.mmio_base + 2 ^ 20 ≤ 2 ^ 32 → IsSetUp v r.1 r.2)
        (sym (initialize-set_up there)) (set_up-IsSetUp paged)
