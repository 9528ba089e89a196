-- ===== src/Process/Switch.antt =====
-- `switch_task`: a process that is switched back to goes on as it was, and a new thread starts.
use orbit_os.Base.{ℕ, ◌+◌, ◌-◌, ◌<◌, ◌≤◌, ◌≡◌, ◌⊎◌, ◌∙◌, refl, arith, u32, ◌^◌, inl, inr}
use orbit_os.Memory.{Memory, load32, store32, load32-store32_ne, load32-store32_self}
use orbit_os.Process.{Cpu, push_word, save, restore}

-- The words that the switch pushes, by their addresses.
abbrev pub frame : Cpu → Memory → Memory
frame cpu m =
    store32
      (store32 (store32 (store32 m (cpu.sp - 4) cpu.ebp) (cpu.sp - 8) cpu.ebx) (cpu.sp - 12)
        cpu.esi)
      (cpu.sp - 16) cpu.edi

pub save-frame :
    (a : ℕ) (cpu : Cpu) (m : Memory)
    → 16 ≤ cpu.sp
    → cpu.sp < 2 ^ 32
    → save a cpu m ≡ store32 (frame cpu m) a (cpu.sp - 16)
unfolding save push_word
save-frame a cpu m lo hi =
    let s1 : u32 (cpu.sp + 2 ^ 32 - 4) ≡ cpu.sp - 4 = omega arith in
    let s2 : u32 (cpu.sp - 4 + 2 ^ 32 - 4) ≡ cpu.sp - 8 = omega arith in
    let s3 : u32 (cpu.sp - 8 + 2 ^ 32 - 4) ≡ cpu.sp - 12 = omega arith in
    let s4 : u32 (cpu.sp - 12 + 2 ^ 32 - 4) ≡ cpu.sp - 16 = omega arith in rw (s1, s2, s3, s4) refl

-- The registers of the C code and the stack pointer are words, and the four words below the stack
-- pointer and the one at it do not overlap the place of the saved stack pointer.
pub record IsSavable (a : ℕ) (cpu : Cpu) : Type 0 where
  pub sp_lo : 16 ≤ cpu.sp
  pub sp_hi : cpu.sp + 4 ≤ 2 ^ 32
  pub ebp_word : cpu.ebp < 2 ^ 32
  pub ebx_word : cpu.ebx < 2 ^ 32
  pub esi_word : cpu.esi < 2 ^ 32
  pub edi_word : cpu.edi < 2 ^ 32
  pub apart : (a + 4 + 16 ≤ cpu.sp) ⊎ (cpu.sp + 4 ≤ a)

-- What a later memory holds that the switch away has written and nobody has overwritten.
abbrev pub IsKept : ℕ → Cpu → Memory → Memory → Type 0
IsKept a cpu m m' =
    (load32 m' a ≡ cpu.sp - 16)
    × (load32 m' (cpu.sp - 16) ≡ cpu.edi)
    × (load32 m' (cpu.sp - 12) ≡ cpu.esi)
    × (load32 m' (cpu.sp - 8) ≡ cpu.ebx)
    × (load32 m' (cpu.sp - 4) ≡ cpu.ebp)
    × (load32 m' cpu.sp ≡ load32 m cpu.sp)

save-IsKept : (a : ℕ) (cpu : Cpu) (m : Memory) → IsSavable a cpu → IsKept a cpu m (save a cpu m)
save-IsKept a cpu m ok =
    let sp = cpu.sp in
    let lo = ok.sp_lo in
    let hi = ok.sp_hi in
    let apart = ok.apart in
    let m1 = store32 m (sp - 4) cpu.ebp in
    let m2 = store32 m1 (sp - 8) cpu.ebx in
    let m3 = store32 m2 (sp - 12) cpu.esi in
    let m4 = frame cpu m in
    rw (save-frame a cpu m lo (omega arith)) (
      load32-store32_self m4 a (sp - 16) ∙ omega arith,
      load32-store32_ne m4 a (sp - 16) (sp - 16) (omega arith)
          ∙ load32-store32_self m3 (sp - 16) cpu.edi
          ∙ omega (arith, ok.edi_word),
      load32-store32_ne m4 a (sp - 16) (sp - 12) (omega arith)
          ∙ load32-store32_ne m3 (sp - 16) cpu.edi (sp - 12) (omega arith)
          ∙ load32-store32_self m2 (sp - 12) cpu.esi
          ∙ omega (arith, ok.esi_word),
      load32-store32_ne m4 a (sp - 16) (sp - 8) (omega arith)
          ∙ load32-store32_ne m3 (sp - 16) cpu.edi (sp - 8) (omega arith)
          ∙ load32-store32_ne m2 (sp - 12) cpu.esi (sp - 8) (omega arith)
          ∙ load32-store32_self m1 (sp - 8) cpu.ebx
          ∙ omega (arith, ok.ebx_word),
      load32-store32_ne m4 a (sp - 16) (sp - 4) (omega arith)
          ∙ load32-store32_ne m3 (sp - 16) cpu.edi (sp - 4) (omega arith)
          ∙ load32-store32_ne m2 (sp - 12) cpu.esi (sp - 4) (omega arith)
          ∙ load32-store32_ne m1 (sp - 8) cpu.ebx (sp - 4) (omega arith)
          ∙ load32-store32_self m (sp - 4) cpu.ebp
          ∙ omega (arith, ok.ebp_word),
      load32-store32_ne m4 a (sp - 16) sp (omega arith)
          ∙ load32-store32_ne m3 (sp - 16) cpu.edi sp (omega arith)
          ∙ load32-store32_ne m2 (sp - 12) cpu.esi sp (omega arith)
          ∙ load32-store32_ne m1 (sp - 8) cpu.ebx sp (omega arith)
          ∙ load32-store32_ne m (sp - 4) cpu.ebp sp (omega arith),
    )

-- A process that was switched away from, and whose saved words no one has written since, goes on
-- with the registers it had, behind its call of `switch_task`.
pub restore-save :
    (a : ℕ) (cpu : Cpu) (m m' : Memory)
    → IsSavable a cpu
    → ((b : ℕ)
        → ((b ≡ a) ⊎ ((cpu.sp ≤ b + 16) × (b ≤ cpu.sp)))
        → load32 m' b ≡ load32 (save a cpu m) b)
    → restore (load32 m' a) cpu.cr3 m' ≡ record cpu { sp = u32 (cpu.sp + 4); eip = load32 m cpu.sp }
unfolding restore
restore-save a cpu m m' ok same =
    let sp = cpu.sp in
    let lo = ok.sp_lo in
    let kept = save-IsKept a cpu m ok in
    let at_a : load32 m' a ≡ sp - 16 = same a (inl refl) ∙ kept.0 in
    let at_edi : load32 m' (sp - 16) ≡ cpu.edi = same (sp - 16) (inr (omega arith)) ∙ kept.1 in
    let at_esi : load32 m' (sp - 12) ≡ cpu.esi = same (sp - 12) (inr (omega arith)) ∙ kept.2 in
    let at_ebx : load32 m' (sp - 8) ≡ cpu.ebx = same (sp - 8) (inr (omega arith)) ∙ kept.3 in
    let at_ebp : load32 m' (sp - 4) ≡ cpu.ebp = same (sp - 4) (inr (omega arith)) ∙ kept.4 in
    let at_sp : load32 m' sp ≡ load32 m sp = same sp (inr (omega arith)) ∙ kept.5 in
    let a4 : sp - 16 + 4 ≡ sp - 12 = omega arith in
    let a8 : sp - 16 + 8 ≡ sp - 8 = omega arith in
    let a12 : sp - 16 + 12 ≡ sp - 4 = omega arith in
    let a16 : sp - 16 + 16 ≡ sp = omega arith in
    let a20 : sp - 16 + 20 ≡ sp + 4 = omega arith in
    rw (at_a, a4, a8, a12, a16, a20, at_edi, at_esi, at_ebx, at_ebp, at_sp) refl
