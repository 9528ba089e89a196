-- ===== src/Kernel/Start.antt =====
-- The processes at the end of the start, and what the timer does with them.
use orbit_os.Base.{ℕ, ◌^◌, ◌<◌, ◌≡◌, ◌≢◌, List, [], ◌∷◌}
use orbit_os.Pmm.{Pmm}
use orbit_os.Pmm.Bitmap.{usage}
use orbit_os.Pmm.Ready.{IsReady}
use orbit_os.Base.{◌-◌, ◌==◌, if◌then◌else◌}
use orbit_os.Process.{Processes, create_thread, next, kernel_stack}
use orbit_os.Process
use orbit_os.Pit.Execution.{Execution, Stacks}
use orbit_os.Kernel.{Env, Kernel}

-- Three different blocks are free.
pub record HasThreeFree (p : Pmm) : Type 0 where
  pub c1 : ℕ
  pub c2 : ℕ
  pub c3 : ℕ
  pub n12 : c1 ≢ c2
  pub n13 : c1 ≢ c3
  pub n23 : c2 ≢ c3
  pub h1 : c1 < p.max_blocks
  pub h2 : c2 < p.max_blocks
  pub h3 : c3 < p.max_blocks
  pub free1 : usage p c1 ≡ 0
  pub free2 : usage p c2 ≡ 0
  pub free3 : usage p c3 ≡ 0

-- The two processes of the run queue.
abbrev pub both_of : Processes → List ℕ
both_of s = s.process_queue ∷ next s.pmm.mem s.process_queue ∷ []

-- The boot stack from `lo` to `hi` for the first process; the page below its kernel stack for any
-- other.
abbrev pub stacks_of : ℕ → ℕ → Processes → Stacks
stacks_of lo hi s p =
    if p == s.process_queue
    then (lo, hi)
    else (kernel_stack s.pmm.mem p - 4096, kernel_stack s.pmm.mem p)

module _ {S : Type 0} (env : Env S) (k : Kernel S) (ready : IsReady k.processes.pmm)
    (few : k.processes.pmm.max_blocks < 2 ^ 20) (free : HasThreeFree k.processes.pmm)
    (enough : 0 < env.fuel) where
  abbrev first : Processes
  first = Process.initialize env.stack_pointer k.cr3 k.processes
