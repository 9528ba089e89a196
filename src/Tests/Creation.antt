-- ===== src/Tests/Creation.antt =====
-- A second thread where blocks 3 and 5 are free.
use orbit_os.Memory.{store32}
use orbit_os.Pmm.{Pmm}
use orbit_os.Process.{Processes}
use orbit_os.Tests.Threads.{running}

-- The record of the first process in block 1.
abbrev blocks : Pmm
blocks = record {
  mem = store32 (store32 (λ a. 0) 0x1010 0x1000) 0x100000 0xD7;
  bitmap = 0x100000;
  max_blocks = 8;
  used_blocks = 6;
}

abbrev alone : Processes
alone = record running { pmm = blocks }
