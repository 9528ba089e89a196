-- ===== src/Shell/Files.antt =====
-- The commands that read files: the loop of "ls" over the entries of the root, and the loop of "cat"
-- over a file. Both take the memory and the terminal.
use orbit_os.Base.{ℕ, zero, suc, ◌+◌, ◌-◌, ◌^◌, Option, some, none, ◌>>=◌}
use orbit_os.Base.{◌==◌, ltb, if◌then◌else◌, u32, true, false}
use orbit_os.Memory.{Memory, store8}
use orbit_os.Fs.{fs_read, fs_readdir, fs_finddir, is_directory, file_length}
use orbit_os.Terminal.{Terminal, writestring}
use orbit_os.Shell.{print_text}

-- One entry: `fsnode` is the node of the name at `name`, or 0.
unfoldable pub print_entry : ℕ → ℕ → ℕ → Memory → Terminal → Option Terminal
print_entry fuel fsnode name m t = if fsnode == 0 then some t else (do
  t' ←
      writestring fuel m name (print_text (if is_directory m fsnode then "(dir) " else "(file) ") t)
  some (print_text "\n" t'))

-- What the code at the pointers of a node does: its listing, its lookup and its reading.
pub record Code : Type 0 where
  pub readdir : ℕ → ℕ → ℕ → Memory → Option (ℕ × Memory)
  pub finddir : ℕ → ℕ → ℕ → Memory → Option (ℕ × Memory)
  pub read : ℕ → ℕ → ℕ → ℕ → ℕ → Memory → ℕ × Memory

module _ (code : Code) (fuel : ℕ) where
  -- The loop of "ls" from entry `i` on.
  unfoldable pub list_files : ℕ → ℕ → ℕ → Memory → Terminal → Option (Memory × Terminal)
  unfolding print_entry
  list_files zero root i m t = none
  list_files (suc rounds) root i m t = do
    (node, m1) ← fs_readdir code.readdir root i m
    elim (node == 0) [
      | true ↦ some (m1, t)
      | false ↦ do
        (fsnode, m2) ← fs_finddir code.finddir root node m1
        t' ← print_entry fuel fsnode node m2 t
        list_files rounds root (i + 1) m2 t'
    ]

  -- The loop of "cat", with `sz` bytes left from `offset` on.
  unfoldable pub cat_loop : ℕ → ℕ → ℕ → ℕ → ℕ → Memory → Terminal → Option (Memory × Terminal)
  cat_loop zero node buf sz offset m t = none
  cat_loop (suc rounds) node buf sz offset m t =
      let read_sz = if ltb 255 sz then 255 else sz in
      let (bytes, m1) = fs_read code.read node offset read_sz buf m in
      let m2 = store8 m1 (buf + bytes) 0 in
      elim (sz == 0) [
        | true ↦ some (m, t)
        | false ↦ elim (bytes == 0) [
          | true ↦ some (m1, t)
          | false ↦ do
            t' ← writestring fuel m2 buf t
            cat_loop rounds node buf (u32 (sz + 2 ^ 32 - bytes)) (u32 (offset + bytes)) m2 t'
        ]
      ]

  -- "ls", where a file system is mounted or not.
  unfoldable pub list : ℕ → ℕ → Memory → Terminal → Option (Memory × Terminal)
  unfolding list_files
  list rounds root m t =
      if root == 0
      then some (m, print_text "No filesystem mounted.\n" t)
      else list_files rounds root 0 m t

  -- "cat" on the name at `filename`.
  unfoldable pub cat : ℕ → ℕ → ℕ → ℕ → Memory → Terminal → Option (Memory × Terminal)
  unfolding cat_loop
  cat rounds root filename buf m t =
      if root == 0 then some (m, print_text "No filesystem mounted.\n" t) else (do
        (fsnode, m1) ← fs_finddir code.finddir root filename m
        if fsnode == 0
            then some (m1, print_text "File not found.\n" t)
            else if is_directory m1 fsnode
            then some (m1, print_text "Is a directory.\n" t)
            else (do
              (m2, t') ← cat_loop rounds fsnode buf (file_length m1 fsnode) 0 m1 t
              some (m2, print_text "\n" t')))
