-- ===== src/Initrd.antt =====
-- fs/initrd.c: the files of the initial ramdisk. The static objects, the text "root" and the three
-- functions that the nodes point to stand at addresses that the linker chooses.
pub mod Reading
pub mod Lookup
pub mod Filled
pub mod Mount
use mathlib.Core.Option
use orbit_os.Base.{ℕ, zero, suc, ◌+◌, ◌-◌, ◌*◌, ◌^◌, Option, some, none, ◌>>=◌}
use orbit_os.Base.{leb, ltb, ◌==◌, not, if◌then◌else◌, u32}
use orbit_os.Memory.{Memory, load32, store32}
use orbit_os.Strings.{memcpy, strcpy, strcmp, is_zero}
use orbit_os.Fs.{node_bytes, fs_file, fs_directory}
use orbit_os.Fs

pub record Layout : Type 0 where
  pub nodes : ℕ
  pub root_node : ℕ
  pub dir_cache : ℕ
  pub root_text : ℕ
  pub read_code : ℕ
  pub readdir_code : ℕ
  pub finddir_code : ℕ

-- How many bytes are copied.
unfoldable pub read_size : ℕ → ℕ → ℕ → ℕ
read_size length offset size = if ltb length (u32 (offset + size)) then length - offset else size

-- `initrd_read`: the number of bytes, and the memory with the buffer filled.
unfoldable pub read : ℕ → ℕ → ℕ → ℕ → Memory → ℕ × Memory
unfolding read_size
read node offset size buffer m =
    let n = read_size (Fs.file_length m node) offset size in
    if leb (Fs.file_length m node) offset
    then (0, m)
    else (n, memcpy m buffer (u32 (Fs.impl m node + offset)) n)

-- `struct initrd_file_header`, number `i`.
abbrev pub file_header : ℕ → ℕ → ℕ
file_header location i = location + 8 + 72 * i

abbrev pub header_offset : Memory → ℕ → ℕ
header_offset m header = load32 m (header + 64)

abbrev pub header_length : Memory → ℕ → ℕ
header_length m header = load32 m (header + 68)

abbrev pub max_files : ℕ
max_files = 64

abbrev pub magic : ℕ
magic = 0x5442524F

-- The static variables that are not in the memory that is modelled as bytes.
pub record Initrd : Type 0 where
  pub mem : Memory
  pub num_files : ℕ
  pub location : ℕ
  pub fs_root : ℕ

module _ (l : Layout) where
  -- `&initrd_nodes[i]`
  abbrev pub node_at : ℕ → ℕ
  node_at i = l.nodes + node_bytes * i

  -- `initrd_readdir`, on `num_files` files.
  unfoldable pub readdir : ℕ → ℕ → ℕ → ℕ → Memory → Option (ℕ × Memory)
  readdir fuel num_files node index m =
      if not (node == l.root_node)
      then some (0, m)
      else if leb num_files index
      then some (0, m)
      else do
        m' ← strcpy fuel m l.dir_cache (node_at index)
        some (l.dir_cache, store32 m' (l.dir_cache + 128) (Fs.inode m' (node_at index)))

  -- The loop of `initrd_finddir` from file `i` on.
  unfoldable pub find_from : ℕ → ℕ → ℕ → ℕ → Memory → Option ℕ
  find_from fuel zero i name m = some 0
  find_from fuel (suc left) i name m =
      let rest = find_from fuel left (i + 1) name m in
      do r ← strcmp fuel m (node_at i) name; if is_zero r then some (node_at i) else rest

  unfoldable pub finddir : ℕ → ℕ → ℕ → ℕ → Memory → Option (ℕ × Memory)
  unfolding find_from
  finddir fuel num_files node name m =
      if not (node == l.root_node)
      then some (0, m)
      else Option.map (λ found. (found, m)) (find_from fuel num_files 0 name m)

  -- What is stored into a node behind its name.
  unfoldable pub fill_node : ℕ → ℕ → Memory → Memory
  fill_node location i m =
      let node = node_at i in
      let header = file_header location i in
      let m1 = store32 m (node + 140) fs_file in
      let m2 = store32 m1 (node + 148) (header_length m1 header) in
      let m3 = store32 m2 (node + 152) (location + header_offset m2 header) in
      let m4 = store32 m3 (node + 144) i in store32 m4 (node + 156) l.read_code

  -- The loop over the file headers from number `i` on.
  unfoldable pub load_files : ℕ → ℕ → ℕ → ℕ → Memory → Option Memory
  unfolding fill_node
  load_files fuel location zero i m = some m
  load_files fuel location (suc left) i m = do
    m' ← strcpy fuel m (node_at i) (file_header location i)
    load_files fuel location left (i + 1) (fill_node location i m')

  -- The root directory.
  unfoldable pub make_root : ℕ → Memory → Option Memory
  make_root fuel m = do
    m' ← strcpy fuel m l.root_node l.root_text
    let m1 = store32 m' (l.root_node + 140) fs_directory
    let m2 = store32 m1 (l.root_node + 172) l.readdir_code
    some (store32 m2 (l.root_node + 176) l.finddir_code)

  unfoldable pub initialize : ℕ → ℕ → Initrd → Option Initrd
  unfolding make_root load_files
  initialize fuel location s = do
    m ← make_root fuel s.mem
    let mounted : Initrd = record s { mem = m; location = location; fs_root = l.root_node }
    let count = load32 m (location + 4)
    let num_files = if ltb max_files count then max_files else count
    if not (load32 m location == magic) then some mounted else (do
      m' ← load_files fuel location num_files 0 m
      some (record mounted { mem = m'; num_files = num_files }))
