-- ===== src/Tests/Files.antt =====
-- The initial ramdisk in small memories.
use orbit_os.Base.{ℕ, zero, suc, ◌+◌, ◌-◌, ◌≤◌, ◌<◌, ◌≡◌, ◌⊎◌, List, [], ◌∷◌, min, arith}
use orbit_os.Base.{inl, inr, refl, some}
use orbit_os.Memory.{Memory, load8, store8, load32, store32}
use orbit_os.Strings.{IsString}
use orbit_os.Fs
use orbit_os.Initrd.{Layout, read, read_size, finddir, load_files}
use orbit_os.Initrd.Reading.{read-slice}
use orbit_os.Initrd.Lookup.{AreNamed, IsFound, finddir-IsFound}
use orbit_os.Initrd.Mount.{AreHeaders, AreLoaded, load_files-AreLoaded}

-- A node at 0x3000 for a file of ten bytes at 0x2000.
abbrev disk : Memory
disk = store32 (store32 (store8 (λ a. 0) 0x2004 b'o') 0x3094 10) 0x3098 0x2000

motd_length : Fs.file_length disk 0x3000 ≡ 10
unfolding load32 load8 store32 store8
motd_length = refl

motd_place : Fs.impl disk 0x3000 ≡ 0x2000
unfolding load32 load8 store32 store8
motd_place = refl

read-slice_example :
    ((read 0x3000 4 100 0x1000 disk).0 ≡ min 100 (Fs.file_length disk 0x3000 - 4))
    × ((i : ℕ)
        → i < min 100 (Fs.file_length disk 0x3000 - 4)
        → load8 (read 0x3000 4 100 0x1000 disk).1 (0x1000 + i)
          ≡ load8 disk (Fs.impl disk 0x3000 + 4 + i))
    × ((a : ℕ)
        → (a < 0x1000) ⊎ (0x1000 + min 100 (Fs.file_length disk 0x3000 - 4) ≤ a)
        → load8 (read 0x3000 4 100 0x1000 disk).1 a ≡ load8 disk a)
read-slice_example =
    read-slice 0x3000 4 100 0x1000 disk (omega arith) (omega (arith, motd_length, motd_place))
      (inl (omega (arith, motd_place)))

-- Where `offset + size` wraps, more bytes are copied than the file has.
read_too_much : read_size 10 4 0xFFFFFFFF ≡ 0xFFFFFFFF
unfolding read_size
read_too_much = refl

abbrev layout : Layout
layout = record {
  nodes = 0x4000;
  root_node = 0x3F00;
  dir_cache = 0x3E00;
  root_text = 0x3D00;
  read_code = 0x100;
  readdir_code = 0x200;
  finddir_code = 0x300;
}

-- Two files, "a" and "b".
abbrev names : ℕ → List ℕ
names zero = b'a' ∷ []
names (suc i) = b'b' ∷ []

-- The nodes, and "b" at 0x500.
abbrev nodes : Memory
nodes = store8 (store8 (store8 (λ a. 0) 0x4000 b'a') 0x40B8 b'b') 0x500 b'b'

b_there : IsString nodes 0x500 (b'b' ∷ [])
unfolding load8 store8
b_there = (refl, omega arith, refl)

nodes-AreNamed : AreNamed layout nodes names 0x500 (b'b' ∷ []) 9 0 2
unfolding load8 store8
nodes-AreNamed zero ge lt = ((refl, omega arith, refl), omega arith)
nodes-AreNamed (suc zero) ge lt = ((refl, omega arith, refl), omega arith)
nodes-AreNamed (suc (suc j)) ge lt = absurd (omega arith)

finddir-IsFound_example :
    (result : ℕ) × (finddir layout 9 2 0x3F00 0x500 nodes ≡ some (result, nodes))
    × IsFound layout nodes names 0x500 (b'b' ∷ []) 0 2 result
finddir-IsFound_example =
    finddir-IsFound layout nodes names 0x500 (b'b' ∷ []) 9 2 b_there nodes-AreNamed

-- Two headers, of the same files, in a ramdisk at 0x10000.
abbrev headers : Memory
headers = store8 (store8 (λ a. 0) 0x10008 b'a') 0x10050 b'b'

headers-AreHeaders : AreHeaders layout 0x10000 64 names headers 0 2
unfolding load8 store8
headers-AreHeaders zero ge lt = ((refl, omega arith, refl), omega arith)
headers-AreHeaders (suc zero) ge lt = ((refl, omega arith, refl), omega arith)
headers-AreHeaders (suc (suc j)) ge lt = absurd (omega arith)

load_files-AreLoaded_example :
    (m' : Memory) × (load_files layout 64 0x10000 2 0 headers ≡ some m')
    × AreLoaded layout 0x10000 64 names headers m' 0 2
load_files-AreLoaded_example =
    load_files-AreLoaded layout 0x10000 64 names 2 0 2 headers refl (omega arith)
      (inr (omega arith)) headers-AreHeaders (omega arith)
