-- ===== src/Process/Stack.antt =====
-- The stack of a new thread, and its first switch.
use orbit_os.Base.{ℕ, ◌+◌, ◌-◌, ◌<◌, ◌≤◌, ◌≡◌, ◌∙◌, refl, arith, u32, ◌^◌}
use orbit_os.Memory.{Memory, load32, store32, load32-store32_ne, load32-store32_self}
use orbit_os.Process.{Cpu, push_word, restore, initial_stack}

-- The stack of a new thread, by its addresses.
abbrev pub new_stack : ℕ → ℕ → ℕ → Memory → Memory
new_stack thread_exit entry_point top m =
    store32
      (store32
        (store32
          (store32 (store32 (store32 m (top - 4) thread_exit) (top - 8) entry_point) (top - 12) 0)
          (top - 16) 0)
        (top - 20) 0)
      (top - 24) 0

pub initial_stack-new_stack :
    (thread_exit entry_point top : ℕ) (m : Memory)
    → 24 ≤ top
    → top < 2 ^ 32
    → initial_stack thread_exit entry_point top m
      ≡ (top - 24, new_stack thread_exit entry_point top m)
unfolding initial_stack push_word
initial_stack-new_stack thread_exit entry_point top m lo hi =
    let s1 : u32 (top + 2 ^ 32 - 4) ≡ top - 4 = omega arith in
    let s2 : u32 (top - 4 + 2 ^ 32 - 4) ≡ top - 8 = omega arith in
    let s3 : u32 (top - 8 + 2 ^ 32 - 4) ≡ top - 12 = omega arith in
    let s4 : u32 (top - 12 + 2 ^ 32 - 4) ≡ top - 16 = omega arith in
    let s5 : u32 (top - 16 + 2 ^ 32 - 4) ≡ top - 20 = omega arith in
    let s6 : u32 (top - 20 + 2 ^ 32 - 4) ≡ top - 24 = omega arith in
    rw (s1, s2, s3, s4, s5, s6) refl

-- The words of a new stack.
abbrev pub HasWords : ℕ → ℕ → ℕ → Memory → Type 0
HasWords thread_exit entry_point top m =
    (load32 m (top - 24) ≡ 0)
    × (load32 m (top - 20) ≡ 0)
    × (load32 m (top - 16) ≡ 0)
    × (load32 m (top - 12) ≡ 0)
    × (load32 m (top - 8) ≡ u32 entry_point)
    × (load32 m (top - 4) ≡ u32 thread_exit)

-- They stay where no one writes them.
pub HasWords-same :
    (thread_exit entry_point top : ℕ) (m m' : Memory)
    → 24 ≤ top
    → ((a : ℕ) → top ≤ a + 24 → a + 4 ≤ top → load32 m' a ≡ load32 m a)
    → HasWords thread_exit entry_point top m
    → HasWords thread_exit entry_point top m'
HasWords-same thread_exit entry_point top m m' lo same w = (
  same (top - 24) (omega arith) (omega arith) ∙ w.0,
  same (top - 20) (omega arith) (omega arith) ∙ w.1,
  same (top - 16) (omega arith) (omega arith) ∙ w.2,
  same (top - 12) (omega arith) (omega arith) ∙ w.3,
  same (top - 8) (omega arith) (omega arith) ∙ w.4,
  same (top - 4) (omega arith) (omega arith) ∙ w.5,
)

-- The state of the processor in which a new thread starts.
abbrev pub started : ℕ → ℕ → ℕ → Cpu
started entry_point top cr3 = record {
  sp = top - 4;
  ebp = 0;
  ebx = 0;
  esi = 0;
  edi = 0;
  cr3 = cr3;
  eip = u32 entry_point;
}

pub restore-HasWords :
    (thread_exit entry_point top cr3 : ℕ) (m : Memory)
    → 24 ≤ top
    → top < 2 ^ 32
    → HasWords thread_exit entry_point top m
    → restore (top - 24) cr3 m ≡ started entry_point top cr3
unfolding restore
restore-HasWords thread_exit entry_point top cr3 m lo hi words =
    let a4 : top - 24 + 4 ≡ top - 20 = omega arith in
    let a8 : top - 24 + 8 ≡ top - 16 = omega arith in
    let a12 : top - 24 + 12 ≡ top - 12 = omega arith in
    let a16 : top - 24 + 16 ≡ top - 8 = omega arith in
    let a20 : u32 (top - 24 + 20) ≡ top - 4 = omega arith in
    rw (a20, a4, a8, a12, a16, words.0, words.1, words.2, words.3, words.4) refl

pub new_stack-HasWords :
    (thread_exit entry_point top : ℕ) (m : Memory)
    → 24 ≤ top
    → HasWords thread_exit entry_point top (new_stack thread_exit entry_point top m)
new_stack-HasWords thread_exit entry_point top m lo =
    let m1 = store32 m (top - 4) thread_exit in
    let m2 = store32 m1 (top - 8) entry_point in
    let m3 = store32 m2 (top - 12) 0 in
    let m4 = store32 m3 (top - 16) 0 in
    let m5 = store32 m4 (top - 20) 0 in
    let off6 : (a : ℕ) → top ≤ a + 20 → load32 (store32 m5 (top - 24) 0) a ≡ load32 m5 a =
      λ a h. load32-store32_ne m5 (top - 24) 0 a (omega arith) in
    let off5 : (a : ℕ) → top ≤ a + 16 → load32 m5 a ≡ load32 m4 a =
      λ a h. load32-store32_ne m4 (top - 20) 0 a (omega arith) in
    let off4 : (a : ℕ) → top ≤ a + 12 → load32 m4 a ≡ load32 m3 a =
      λ a h. load32-store32_ne m3 (top - 16) 0 a (omega arith) in
    let off3 : (a : ℕ) → top ≤ a + 8 → load32 m3 a ≡ load32 m2 a =
      λ a h. load32-store32_ne m2 (top - 12) 0 a (omega arith) in
    (
      load32-store32_self m5 (top - 24) 0,
      off6 (top - 20) (omega arith) ∙ load32-store32_self m4 (top - 20) 0,
      off6 (top - 16) (omega arith)
          ∙ off5 (top - 16) (omega arith)
          ∙ load32-store32_self m3 (top - 16) 0,
      off6 (top - 12) (omega arith)
          ∙ off5 (top - 12) (omega arith)
          ∙ off4 (top - 12) (omega arith)
          ∙ load32-store32_self m2 (top - 12) 0,
      off6 (top - 8) (omega arith)
          ∙ off5 (top - 8) (omega arith)
          ∙ off4 (top - 8) (omega arith)
          ∙ off3 (top - 8) (omega arith)
          ∙ load32-store32_self m1 (top - 8) entry_point,
      off6 (top - 4) (omega arith)
          ∙ off5 (top - 4) (omega arith)
          ∙ off4 (top - 4) (omega arith)
          ∙ off3 (top - 4) (omega arith)
          ∙ load32-store32_ne m1 (top - 8) entry_point (top - 4) (omega arith)
          ∙ load32-store32_self m (top - 4) thread_exit,
    )

-- The first switch to a new thread, on a stack that ends below 2 ^ 32, goes to its entry point with
-- the four registers cleared, and the return address it finds on the stack is that of `thread_exit`.
pub restore-initial_stack :
    (thread_exit entry_point top cr3 : ℕ) (m : Memory)
    → 24 ≤ top
    → top < 2 ^ 32
    → (restore
          (initial_stack thread_exit entry_point top m).0
          cr3
          (initial_stack thread_exit entry_point top m).1
        ≡ started entry_point top cr3)
      × (load32 (initial_stack thread_exit entry_point top m).1 (top - 4) ≡ u32 thread_exit)
restore-initial_stack thread_exit entry_point top cr3 m lo hi =
    let words = new_stack-HasWords thread_exit entry_point top m lo in
    rw (initial_stack-new_stack thread_exit entry_point top m lo hi) (
      restore-HasWords thread_exit entry_point top cr3 (new_stack thread_exit entry_point top m) lo
          hi words,
      words.5,
    )
