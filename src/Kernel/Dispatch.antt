-- ===== src/Kernel/Dispatch.antt =====
-- Which routine an interrupt reaches after the start.
use mathlib.Core.Option
use mathlib.Core.Path.{subst}
use orbit_os.Base.{
  ℕ, zero, suc, ◌+◌, ◌<◌, ◌≡◌, ◌∙◌, ◌↔◌, refl, arith, ap, sym, Option, some, none, ◌>>=◌,
}
use orbit_os.Base.{◌==◌, ltb, not, if◌then◌else◌, Bool, true, false, bit_and, ◌<<◌, String}
use orbit_os.Isr.{Handlers, install, register_interrupt_handler}
use orbit_os.Isr
use orbit_os.Memory.{Memory, store8}
use orbit_os.Isr.Gates.{UserCallable, UserCallable-install}
use orbit_os.Process
use orbit_os.Process.{create_thread}
use orbit_os.Pit
use orbit_os.Pmm
use orbit_os.Multiboot
use orbit_os.Initrd.{Initrd}
use orbit_os.Initrd
use orbit_os.Fs.{fs_readdir, fs_finddir, fs_read, file_length}
use orbit_os.Terminal.{writestring}
use orbit_os.Keyboard
use orbit_os.Syscall
use orbit_os.Kernel.{
  Env, Kernel, say, show, memory, with_memory, with_disk, readdir, finddir, read, start_cpu,
  start_memory, list_files, test_files, mount, start_processes, boot,
}

-- The gates are those of `k`, and the handlers are made from those of `k`, wherever there is a
-- result.
data Leaves {S : Type 0} (change : Handlers S → Handlers S) (k : Kernel S)
    : Option (Kernel S) → Type 0 where
  nothing : Leaves change k none
  same :
      {k' : Kernel S} → k'.idt ≡ k.idt → k'.handlers ≡ change k.handlers → Leaves change k (some k')

abbrev Keeps : {S : Type 0} → Kernel S → Option (Kernel S) → Type 0
Keeps k r = Leaves (λ h. h) k r

Leaves-result :
    {S : Type 0} (change : Handlers S → Handlers S) (k k' : Kernel S) (r : Option (Kernel S))
    → r ≡ some k'
    → Leaves change k r
    → (k'.idt ≡ k.idt) × (k'.handlers ≡ change k.handlers)
Leaves-result change k k' none e nothing = cc
Leaves-result change k k' (some k1) e (same h h') =
    let found : k1 ≡ k' = cc in
    (ap (λ x. x.idt) (sym found) ∙ h, ap (λ x. x.handlers) (sym found) ∙ h')

module _ {S : Type 0} (k : Kernel S) where
  Keeps-any :
      {change : Handlers S → Handlers S} {A : Type 0} (r : Option A) {f : A → Option (Kernel S)}
      → ((a : A) → Leaves change k (f a))
      → Leaves change k (r >>= f)
  Keeps-any none h = nothing
  Keeps-any (some a) h = h a

  Keeps-then :
      {change : Handlers S → Handlers S} (k1 : Kernel S) {r : Option (Kernel S)}
      → k1.idt ≡ k.idt
      → k1.handlers ≡ k.handlers
      → Leaves change k1 r
      → Leaves change k r
  Keeps-then k1 e e' nothing = nothing
  Keeps-then {change} k1 e e' (same h h') = same (h ∙ e) (h' ∙ ap change e')

  Keeps-bind :
      {change : Handlers S → Handlers S} {r : Option (Kernel S)} {f : Kernel S → Option (Kernel S)}
      → Keeps k r
      → ((k1 : Kernel S) → Leaves change k1 (f k1))
      → Leaves change k (r >>= f)
  Keeps-bind nothing g = nothing
  Keeps-bind (same {k' = k1} h h') g = Keeps-then k1 h h' (g k1)

  Keeps-map :
      {A : Type 0} (r : Option A) {f : A → Kernel S}
      → ((a : A) → Keeps k (some (f a)))
      → Keeps k (Option.map f r)
  Keeps-map none h = nothing
  Keeps-map (some a) h = h a

  Keeps-after :
      (f : Kernel S → Kernel S) {r : Option (Kernel S)}
      → Keeps k r
      → ((k1 : Kernel S) → ((f k1).idt ≡ k1.idt) × ((f k1).handlers ≡ k1.handlers))
      → Keeps k (Option.map f r)
  Keeps-after f nothing g = nothing
  Keeps-after f (same {k' = k1} h h') g = same ((g k1).0 ∙ h) ((g k1).1 ∙ h')

  Keeps-if :
      (b : Bool) {x y : Option (Kernel S)} → Keeps k x → Keeps k y → Keeps k (if b then x else y)
  Keeps-if true h g = h
  Keeps-if false h g = g

module _ {S : Type 0} (env : Env S) where
  Keeps-start_memory : (mbi : ℕ) (k : Kernel S) → Keeps k (start_memory env mbi k)
  unfolding start_memory
  Keeps-start_memory mbi k =
      Keeps-any k (Pmm.initialize env.region_fuel env.map_fuel (memory k) mbi env.kernel_end)
        (λ pmm. same refl refl)

  -- A text that is printed with words before and behind it.
  Keeps-show :
      (k : Kernel S) (text : ℕ) (before behind : String)
      → Keeps k (Option.map (say behind) (show env text (say before k)))
  Keeps-show k text before behind =
      Keeps-after k (say behind)
        (Keeps-map k (writestring env.fuel (memory k) text (say before k).terminal)
          (λ t. same refl refl))
        (λ k1. (refl, refl))

  Keeps-list_files : (left i : ℕ) (k : Kernel S) → Keeps k (list_files env left i k)
  unfolding list_files
  Keeps-list_files zero i k = same refl refl
  Keeps-list_files (suc left) i k =
      Keeps-any k (fs_readdir (readdir env k.num_files) k.fs_root i (memory k))
        (λ (found : ℕ × Memory).
          Keeps-bind k
            (Keeps-if k (found.0 == 0) (same refl refl) (
              Keeps-then k (with_memory found.1 k) refl refl
                (Keeps-show (with_memory found.1 k) found.0 " - " "\n")))
            (λ k1. Keeps-list_files left (i + 1) k1))

  Keeps-test_files : (k : Kernel S) → Keeps k (test_files env k)
  unfolding test_files
  Keeps-test_files k =
      Keeps-any k (fs_finddir (finddir env k.num_files) k.fs_root env.hello_text (memory k))
        (λ (found : ℕ × Memory). Keeps-if k (found.0 == 0) (same refl refl) (
          Keeps-then k (loaded k found) refl refl
            (Keeps-show (loaded k found) env.buf "Read from VFS (hello.txt): " "\n")))
    where
      loaded : Kernel S → ℕ × Memory → Kernel S
      loaded k (hello_file, m) =
          let (bytes, m') = fs_read (read env) hello_file 0 (file_length m hello_file) env.buf m in
          with_memory (store8 m' (env.buf + bytes) 0) (with_memory m k)

  Keeps-mount : (mbi : ℕ) (k : Kernel S) → Keeps k (mount env mbi k)
  unfolding mount
  Keeps-mount mbi k =
      Keeps-if k (bit_and (Multiboot.flags (memory k) mbi) (1 << 3) == 0) (same refl refl) (
        Keeps-if k (not (ltb 0 (Multiboot.mods_count (memory k) mbi))) (same refl refl) (
          Keeps-any k
            (Initrd.initialize env.layout env.fuel
              (Multiboot.mod_start (memory k) (Multiboot.mods_addr (memory k) mbi) 0)
              (record {
                mem = memory k;
                num_files = k.num_files;
                location = k.location;
                fs_root = k.fs_root;
              }))
            (λ disk.
              Keeps-bind k
                (Keeps-then k (mounted disk k) refl refl (Keeps-list_files 10 0 (mounted disk k)))
                (λ k1. Keeps-test_files k1))))
    where
      mounted : Initrd → Kernel S → Kernel S
      mounted disk k = say "Initrd filesystem mounted. Files:\n" (with_disk disk k)

  -- At interrupt `n`: user code may call the gate of the system call only, and the handlers are the
  -- timer's, the keyboard's and the system call's, on their own interrupts.
  abbrev pub IsWired : Kernel S → ℕ → Type 0
  IsWired k n =
      (UserCallable (k.idt.entries n) ↔ (n ≡ 128))
      × (k.handlers n ≡ (
          if n == 32
          then some env.pit_callback
          else if n == 33
          then some env.keyboard_callback
          else if n == 128
          then some env.syscall_handler
          else none))

  Leaves-start_processes :
      (k : Kernel S)
      → Leaves (register_interrupt_handler 128 env.syscall_handler) k (start_processes env k)
  unfolding start_processes Syscall.initialize
  Leaves-start_processes k =
      Keeps-any k
        (create_thread env.fuel env.thread_exit env.background_task k.cr3
          (Process.initialize env.stack_pointer k.cr3 k.processes))
        (λ made. same refl refl)

  -- The processes come last: they add the handler of the system call.
  boot_keeps :
      (mbi : ℕ) (k k' : Kernel S)
      → boot env mbi k ≡ some k'
      → (k'.idt ≡ (start_cpu env k).idt)
        × (k'.handlers
            ≡ register_interrupt_handler 128 env.syscall_handler (start_cpu env k).handlers)
  unfolding boot
  boot_keeps mbi k k' e =
      Leaves-result (register_interrupt_handler 128 env.syscall_handler) (start_cpu env k) k' _ e (
        Keeps-bind (start_cpu env k) (Keeps-start_memory mbi (start_cpu env k))
          (λ k1. Keeps-bind k1 (Keeps-mount mbi k1) (λ k2. Leaves-start_processes k2)))

  wired :
      (mbi : ℕ) (k k' : Kernel S) (n : ℕ)
      → n < 256
      → (k'.idt ≡ (start_cpu env k).idt)
        × (k'.handlers
            ≡ register_interrupt_handler 128 env.syscall_handler (start_cpu env k).handlers)
      → IsWired k' n
  unfolding start_cpu Isr.initialize Pit.initialize Keyboard.initialize register_interrupt_handler
  wired mbi k k' n h (gates, routines) = (
    subst (λ t. UserCallable (t.entries n) ↔ (n ≡ 128)) (sym gates)
        (UserCallable-install env.stubs env.idt_entries k.idt n h),
    ap (λ f. f n) routines ∙ ground arith,
  )

  -- Whenever the start comes to its end, user code may call the gate of interrupt 128 only, and of
  -- the 256 interrupts 32, 33 and 128 alone have handlers: those of the timer, the keyboard and the
  -- system calls.
  pub boot-IsWired :
      (mbi : ℕ) (k k' : Kernel S) (n : ℕ) → boot env mbi k ≡ some k' → n < 256 → IsWired k' n
  unfolding boot
  boot-IsWired mbi k k' n e h = wired mbi k k' n h (boot_keeps mbi k k' e)
