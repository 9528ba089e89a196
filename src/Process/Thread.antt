-- ===== src/Process/Thread.antt =====
-- What `process_create_thread` promises.
use orbit_os.Base.{ℕ, ◌≤◌, ◌+◌, ◌≡◌, ◌≢◌, u32}
use orbit_os.Base.{List, [], ◌∷◌, ◌++◌}
use orbit_os.Process.{Processes, restore, esp, page_directory}
use orbit_os.Process.Stack.{started}
use orbit_os.Process.Allocate.{IsOrderly}
use orbit_os.Process.Prepare.{IsPrepared}

-- A new thread at `proc`, last in the run queue of `t`: its record and its stack, and the state in
-- which the first switch to it starts.
pub record IsCreated (s t : Processes) (xs : List ℕ) (thread_exit entry_point cr3 proc : ℕ)
    : Type 0 where
  pub orderly : IsOrderly t (xs ++ proc ∷ [])
  pub queue_same : t.process_queue ≡ s.process_queue
  pub current_same : t.current_process ≡ s.current_process
  pub real : proc ≢ 0
  pub next_pid_up : t.next_pid ≡ u32 (s.next_pid + 1)
  pub top : ℕ
  pub top_lo : 4096 ≤ top
  pub prepared : IsPrepared t.pmm.mem thread_exit entry_point cr3 top s.next_pid proc
  pub starts :
      restore (esp t.pmm.mem proc) (page_directory t.pmm.mem proc) t.pmm.mem
      ≡ started entry_point top (u32 cr3)
