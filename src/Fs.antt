-- ===== src/Fs.antt =====
-- fs/fs.h and fs/fs.c: the nodes of the file system in memory, at the offsets of the structure, and
-- the dispatch through their function pointers. What the code at an address does is a parameter.
use orbit_os.Base.{ℕ, Bool, Option, some, ◌+◌, ◌==◌, ◌&&◌, not, bit_and, if◌then◌else◌}
use orbit_os.Memory.{Memory, load32}

-- `struct fs_node`; its name is the string at the node's own address.
module _ (m : Memory) (node : ℕ) where
  abbrev pub flags : ℕ
  flags = load32 m (node + 140)

  abbrev pub inode : ℕ
  inode = load32 m (node + 144)

  abbrev pub file_length : ℕ
  file_length = load32 m (node + 148)

  abbrev pub impl : ℕ
  impl = load32 m (node + 152)

  abbrev pub read_op : ℕ
  read_op = load32 m (node + 156)

  abbrev pub write_op : ℕ
  write_op = load32 m (node + 160)

  abbrev pub open_op : ℕ
  open_op = load32 m (node + 164)

  abbrev pub close_op : ℕ
  close_op = load32 m (node + 168)

  abbrev pub readdir_op : ℕ
  readdir_op = load32 m (node + 172)

  abbrev pub finddir_op : ℕ
  finddir_op = load32 m (node + 176)

-- `sizeof(fs_node_t)`
abbrev pub node_bytes : ℕ
node_bytes = 184

abbrev pub fs_file : ℕ
fs_file = 1

abbrev pub fs_directory : ℕ
fs_directory = 2

-- `(node->flags & 0x07) == FS_DIRECTORY`
abbrev pub is_directory : Memory → ℕ → Bool
is_directory m node = bit_and (flags m node) 0x07 == fs_directory

-- `fs_read` and `fs_write`, with what the code at a pointer does to the memory as a parameter: the
-- result, and the memory afterwards.
module _ (code : ℕ → ℕ → ℕ → ℕ → ℕ → Memory → ℕ × Memory) where
  unfoldable pub fs_read : ℕ → ℕ → ℕ → ℕ → Memory → ℕ × Memory
  fs_read node offset size buffer m =
      if not (read_op m node == 0) then code (read_op m node) node offset size buffer m else (0, m)

  unfoldable pub fs_write : ℕ → ℕ → ℕ → ℕ → Memory → ℕ × Memory
  fs_write node offset size buffer m =
      if not (write_op m node == 0)
      then code (write_op m node) node offset size buffer m
      else (0, m)

module _ (code : ℕ → ℕ → Memory → Memory) where
  unfoldable pub fs_open : ℕ → Memory → Memory
  fs_open node m = if not (open_op m node == 0) then code (open_op m node) node m else m

  unfoldable pub fs_close : ℕ → Memory → Memory
  fs_close node m = if not (close_op m node == 0) then code (close_op m node) node m else m

-- `fs_readdir` and `fs_finddir`: the argument is an index, or the address of a name, the result a
-- pointer. The code may loop over strings, so it may have no result.
module _ (code : ℕ → ℕ → ℕ → Memory → Option (ℕ × Memory)) where
  unfoldable pub fs_readdir : ℕ → ℕ → Memory → Option (ℕ × Memory)
  fs_readdir node index m =
      if is_directory m node && not (readdir_op m node == 0)
      then code (readdir_op m node) node index m
      else some (0, m)

  unfoldable pub fs_finddir : ℕ → ℕ → Memory → Option (ℕ × Memory)
  fs_finddir node name m =
      if is_directory m node && not (finddir_op m node == 0)
      then code (finddir_op m node) node name m
      else some (0, m)
