-- ===== src/Vmm/Page.antt =====
-- Writing an entry of a table that is there.
use native.Mathlib.Decide.{ℕ_discrete}
use orbit_os.Base.{ℕ, ◌+◌, ◌*◌, ◌/◌, ◌%◌, ◌^◌, ◌≤◌, ◌<◌, ◌≡◌, ◌≢◌, ◌⊎◌, refl, arith, ◌∙◌, ap}
use orbit_os.Base.{sym, true, false, bit_and, bit_or, ◌==◌, if◌then◌else◌, some, complement}
use orbit_os.Bits.{bit_and-mask}
use orbit_os.Memory.{Memory, load8, word, set_word, word-lt, word-set_word, load8-set_word_ne}
use orbit_os.Vmm.{Vmm, set_page}
use orbit_os.Vmm.Walk.{
  frame, translate, translate-same, bit_and-frame, entry_lem, word-set_word_other, HasTables,
  IsPresent,
}

-- The entry that `vmm_map_page` writes.
abbrev pub page_entry : ℕ → ℕ → ℕ
page_entry phys flags = phys / 4096 * 4096 + flags / 2 * 2 + 1

-- What one page's new mapping does to the translation of an address.
abbrev pub IsRemapped : ℕ → ℕ → ℕ → Memory → Memory → Type 0
IsRemapped phys virt pd m m' =
    (a : ℕ)
    → a < 2 ^ 32
    → translate m' pd a
      ≡ (if a / 4096 == virt / 4096 then some (frame phys + a % 4096) else translate m pd a)

module _ (phys virt flags : ℕ) (hp : phys < 2 ^ 32) (hv : virt < 2 ^ 32) (hf : flags < 4096) where
  pub mem-set_page :
      (v : Vmm)
      → (set_page phys virt flags v).pmm.mem
        ≡ set_word v.pmm.mem
            (frame (word v.pmm.mem v.page_directory (virt / 2 ^ 22)))
            (virt / 4096 % 1024)
            (page_entry phys flags)
  unfolding set_page
  mem-set_page v =
      let pde = word v.pmm.mem v.page_directory (virt / 2 ^ 22) in
      let table : bit_and pde (complement 0xFFF) ≡ frame pde =
        bit_and-frame pde (word-lt v.pmm.mem v.page_directory (virt / 2 ^ 22)) in
      let index : bit_and (virt / 2 ^ 12) 0x03FF ≡ virt / 4096 % 1024 =
        bit_and-mask 10 (virt / 2 ^ 12) ∙ omega arith in
      let entry : bit_or (bit_or (bit_and phys (complement 0xFFF)) flags) 1
          ≡ page_entry phys flags =
        ap (λ t. bit_or (bit_or t flags) 1) (bit_and-frame phys hp)
        ∙ entry_lem (phys / 4096) flags hf in
      rw (table, index, entry) refl

  module _ (m : Memory) (pd : ℕ) (t : HasTables m pd) (there : IsPresent m pd (virt / 2 ^ 22)) where
    unfoldable pub written : Memory
    written =
        set_word m (frame (word m pd (virt / 2 ^ 22))) (virt / 4096 % 1024) (page_entry phys flags)

    pub directory-written : (j : ℕ) → j < 1024 → word written pd j ≡ word m pd j
    unfolding written
    directory-written j hj =
        word-set_word_other m (frame (word m pd (virt / 2 ^ 22))) pd (virt / 4096 % 1024) j
          (page_entry phys flags) (omega arith) t.aligned (t.not_pd (virt / 2 ^ 22) there)
          (omega arith) hj

    same_page :
        (a : ℕ) → a / 4096 ≡ virt / 4096 → translate written pd a ≡ some (frame phys + a % 4096)
    unfolding translate
    same_page a e =
        let i : a / 2 ^ 22 ≡ virt / 2 ^ 22 = omega arith in
        let d : word written pd (virt / 2 ^ 22) ≡ word m pd (virt / 2 ^ 22) =
          directory-written (virt / 2 ^ 22) (omega arith) in
        let pte : word written (frame (word m pd (virt / 2 ^ 22))) (virt / 4096 % 1024)
            ≡ page_entry phys flags =
          unfold written in
          (word-set_word m (frame (word m pd (virt / 2 ^ 22))) (virt / 4096 % 1024)
              (page_entry phys flags) (virt / 4096 % 1024)
            ∙ ground arith) in
        let pde_on : (word m pd (virt / 2 ^ 22) % 2 == 0) ≡ false = ground (arith, there.1) in
        let pte_on : (page_entry phys flags % 2 == 0) ≡ false = ground arith in
        let place : frame (page_entry phys flags) ≡ frame phys = omega arith in
        rw (e, i, d, pde_on, pte, pte_on, place) refl

    other_page :
        (a : ℕ) → a < 2 ^ 32 → a / 4096 ≢ virt / 4096 → translate written pd a ≡ translate m pd a
    other_page a ha ne =
        translate-same m written pd a (directory-written (a / 2 ^ 22) (omega arith)) (λ on.
          elim (ℕ_discrete (a / 2 ^ 22) (virt / 2 ^ 22)) [
            | yes same ↦
                let k : (a / 4096 % 1024 == virt / 4096 % 1024) ≡ false = ground arith in
                rw same (
                  unfold written in
                  (word-set_word m (frame (word m pd (virt / 2 ^ 22))) (virt / 4096 % 1024)
                      (page_entry phys flags) (a / 4096 % 1024)
                    ∙ ground arith))
            | no differ ↦
                unfold written in
                word-set_word_other m (frame (word m pd (virt / 2 ^ 22)))
                  (frame (word m pd (a / 2 ^ 22))) (virt / 4096 % 1024) (a / 4096 % 1024)
                  (page_entry phys flags) (omega arith) (omega arith)
                  (t.not_shared (virt / 2 ^ 22) (a / 2 ^ 22) there (omega arith, on)
                    (λ e. differ (sym e)))
                  (omega arith) (omega arith)
          ])

    pub written-IsRemapped : IsRemapped phys virt pd m written
    written-IsRemapped a ha = elim (ℕ_discrete (a / 4096) (virt / 4096)) [
      | yes e ↦
          let test : (a / 4096 == virt / 4096) ≡ true = ground arith in rw test (same_page a e)
      | no ne ↦
          let test : (a / 4096 == virt / 4096) ≡ false = ground arith in
          rw test (other_page a ha ne)
    ]

    pub load8-written :
        (a : ℕ)
        → (a < frame (word m pd (virt / 2 ^ 22))) ⊎ (frame (word m pd (virt / 2 ^ 22)) + 4096 ≤ a)
        → load8 written a ≡ load8 m a
    unfolding written
    load8-written a out =
        load8-set_word_ne m (frame (word m pd (virt / 2 ^ 22))) (virt / 4096 % 1024)
          (page_entry phys flags) a (omega arith)
