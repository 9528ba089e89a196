-- ===== src/Process/Prepare.antt =====
-- The record and the stack of a new thread.
use orbit_os.Base.{ℕ, ◌+◌, ◌-◌, ◌^◌, ◌≤◌, ◌<◌, ◌≡◌, ◌⊎◌, ◌∙◌, refl, arith, u32}
use orbit_os.Memory.{Memory, load32, store32, load32-store32_ne, load32-store32_self}
use orbit_os.Process.{prepare, id, esp, kernel_stack, page_directory}
use orbit_os.Process.Stack.{
  HasWords, HasWords-same, new_stack, initial_stack-new_stack, new_stack-HasWords,
}

-- A new thread's record at `proc` and its stack below `top`.
pub record IsPrepared (m : Memory) (thread_exit entry_point cr3 top pid proc : ℕ) : Type 0 where
  pub words : HasWords thread_exit entry_point top m
  pub named : id m proc ≡ u32 pid
  pub stacked : esp m proc ≡ top - 24
  pub based : kernel_stack m proc ≡ top
  pub paged : page_directory m proc ≡ u32 cr3

-- The record and the stack do not overlap.
abbrev pub OffRecord : ℕ → ℕ → Type 0
OffRecord proc top = (proc + 20 + 24 ≤ top) ⊎ (top ≤ proc)

-- It stays so where its words are not written.
pub IsPrepared-same :
    (m m' : Memory) (thread_exit entry_point cr3 top pid proc : ℕ)
    → 24 ≤ top
    → ((a : ℕ) → top ≤ a + 24 → a + 4 ≤ top → load32 m' a ≡ load32 m a)
    → ((a : ℕ) → proc ≤ a → a + 4 ≤ proc + 16 → load32 m' a ≡ load32 m a)
    → IsPrepared m thread_exit entry_point cr3 top pid proc
    → IsPrepared m' thread_exit entry_point cr3 top pid proc
IsPrepared-same m m' thread_exit entry_point cr3 top pid proc lo stack fields h = record {
  words = HasWords-same thread_exit entry_point top m m' lo stack h.words;
  named = fields proc (omega arith) (omega arith) ∙ h.named;
  stacked = fields (proc + 4) (omega arith) (omega arith) ∙ h.stacked;
  based = fields (proc + 8) (omega arith) (omega arith) ∙ h.based;
  paged = fields (proc + 12) (omega arith) (omega arith) ∙ h.paged;
}

-- A word beside the new stack.
load32-new_stack :
    (thread_exit entry_point top a : ℕ) (m : Memory)
    → 24 ≤ top
    → (a + 4 + 24 ≤ top) ⊎ (top ≤ a)
    → load32 (new_stack thread_exit entry_point top m) a ≡ load32 m a
load32-new_stack thread_exit entry_point top a m lo off =
    let m1 = store32 m (top - 4) thread_exit in
    let m2 = store32 m1 (top - 8) entry_point in
    let m3 = store32 m2 (top - 12) 0 in
    let m4 = store32 m3 (top - 16) 0 in
    let m5 = store32 m4 (top - 20) 0 in
    load32-store32_ne m5 (top - 24) 0 a (omega arith)
    ∙ load32-store32_ne m4 (top - 20) 0 a (omega arith)
    ∙ load32-store32_ne m3 (top - 16) 0 a (omega arith)
    ∙ load32-store32_ne m2 (top - 12) 0 a (omega arith)
    ∙ load32-store32_ne m1 (top - 8) entry_point a (omega arith)
    ∙ load32-store32_ne m (top - 4) thread_exit a (omega arith)

module _ (thread_exit entry_point cr3 stack_base proc : ℕ) (m : Memory)
    (fits : stack_base + 4096 < 2 ^ 32) (off : OffRecord proc (stack_base + 4096)) where
  abbrev top : ℕ
  top = stack_base + 4096

  abbrev based_mem : Memory
  based_mem = store32 m (proc + 8) top

  abbrev stacked_mem : Memory
  stacked_mem = new_stack thread_exit entry_point top based_mem

  prepare-stores :
      prepare thread_exit entry_point cr3 stack_base proc m
      ≡ store32 (store32 stacked_mem (proc + 4) (top - 24)) (proc + 12) cr3
  unfolding prepare
  prepare-stores =
      let e : u32 top ≡ top = omega arith in
      rw (e, initial_stack-new_stack thread_exit entry_point top based_mem (omega arith) fits) refl

  -- A word beside the fields that are written and the stack.
  pub load32-prepare :
      (a : ℕ)
      → (a + 4 ≤ proc + 4) ⊎ (proc + 16 ≤ a)
      → (a + 4 + 24 ≤ top) ⊎ (top ≤ a)
      → load32 (prepare thread_exit entry_point cr3 stack_base proc m) a ≡ load32 m a
  load32-prepare a beside off_stack = rw prepare-stores (
      load32-store32_ne (store32 stacked_mem (proc + 4) (top - 24)) (proc + 12) cr3 a (omega arith)
      ∙ load32-store32_ne stacked_mem (proc + 4) (top - 24) a (omega arith)
      ∙ load32-new_stack thread_exit entry_point top a based_mem (omega arith) off_stack
      ∙ load32-store32_ne m (proc + 8) top a (omega arith))

  pub prepare-IsPrepared :
      (pid : ℕ)
      → id m proc ≡ u32 pid
      → IsPrepared
          (prepare thread_exit entry_point cr3 stack_base proc m)
          thread_exit
          entry_point
          cr3
          (stack_base + 4096)
          pid
          proc
  prepare-IsPrepared pid named =
      let m1 = store32 stacked_mem (proc + 4) (top - 24) in
      let lo : 24 ≤ top = omega arith in
      record {
        words = rw prepare-stores (
            HasWords-same thread_exit entry_point top stacked_mem (store32 m1 (proc + 12) cr3) lo
              (λ a ge le.
                load32-store32_ne m1 (proc + 12) cr3 a (omega arith)
                ∙ load32-store32_ne stacked_mem (proc + 4) (top - 24) a (omega arith))
              (new_stack-HasWords thread_exit entry_point top based_mem lo));
        named = load32-prepare proc (omega arith) (omega arith) ∙ named;
        stacked = rw prepare-stores (
            load32-store32_ne m1 (proc + 12) cr3 (proc + 4) (omega arith)
            ∙ load32-store32_self stacked_mem (proc + 4) (top - 24)
            ∙ omega arith);
        based = rw prepare-stores (
            load32-store32_ne m1 (proc + 12) cr3 (proc + 8) (omega arith)
            ∙ load32-store32_ne stacked_mem (proc + 4) (top - 24) (proc + 8) (omega arith)
            ∙ load32-new_stack thread_exit entry_point top (proc + 8) based_mem lo (omega arith)
            ∙ load32-store32_self m (proc + 8) top
            ∙ omega arith);
        paged = rw prepare-stores (load32-store32_self m1 (proc + 12) cr3);
      }
