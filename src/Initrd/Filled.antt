-- ===== src/Initrd/Filled.antt =====
-- The node of a file after `initrd_initialize` has filled it in.
use orbit_os.Base.{ℕ, ◌+◌, ◌*◌, ◌≤◌, ◌<◌, ◌≡◌, ◌⊎◌, arith}
use orbit_os.Base.{List, length, ◌∙◌, ap, u32}
use orbit_os.Memory.{
  Memory, load8, load32, store32, load8-store32_ne, load32-store32_ne, load32-store32_self,
  load32-lt, load32-same,
}
use orbit_os.Strings.{IsString}
use orbit_os.Strings.Copy.{IsString-same}
use orbit_os.Fs
use orbit_os.Fs.{node_bytes}
use orbit_os.Initrd.{
  Layout, node_at, file_header, header_offset, header_length, max_files, fill_node,
}

-- Node `j` is that of a file with this name, length and place.
pub record IsFile (l : Layout) (m : Memory) (j len start : ℕ) (name : List ℕ) : Type 0 where
  pub named : IsString m (node_at l j) name
  pub is_file : Fs.flags m (node_at l j) ≡ 1
  pub measured : Fs.file_length m (node_at l j) ≡ len
  pub placed : Fs.impl m (node_at l j) ≡ start
  pub numbered : Fs.inode m (node_at l j) ≡ u32 j
  pub readable : Fs.read_op m (node_at l j) ≡ u32 l.read_code

-- The headers and the nodes do not overlap.
abbrev pub HeadersApart : Layout → ℕ → Type 0
HeadersApart l location =
    (location + 8 + 72 * max_files ≤ l.nodes) ⊎ (l.nodes + node_bytes * max_files ≤ location)

module _ (l : Layout) (location : ℕ) where
  pub fill_node_outside :
      (i a : ℕ) (m : Memory)
      → (a < node_at l i + 140) ⊎ (node_at l i + 160 ≤ a)
      → load8 (fill_node l location i m) a ≡ load8 m a
  unfolding fill_node
  fill_node_outside i a m out =
      let node = node_at l i in
      let header = file_header location i in
      let m1 = store32 m (node + 140) 1 in
      let m2 = store32 m1 (node + 148) (header_length m1 header) in
      let m3 = store32 m2 (node + 152) (location + header_offset m2 header) in
      let m4 = store32 m3 (node + 144) i in
      load8-store32_ne m4 (node + 156) l.read_code a (omega arith)
      ∙ load8-store32_ne m3 (node + 144) i a (omega arith)
      ∙ load8-store32_ne m2 (node + 152) (location + header_offset m2 header) a (omega arith)
      ∙ load8-store32_ne m1 (node + 148) (header_length m1 header) a (omega arith)
      ∙ load8-store32_ne m (node + 140) 1 a (omega arith)

  pub fill_node-IsFile :
      (i : ℕ) (m : Memory) (name : List ℕ)
      → i < max_files
      → HeadersApart l location
      → IsString m (node_at l i) name
      → length name < 64
      → IsFile l
          (fill_node l location i m)
          i
          (header_length m (file_header location i))
          (u32 (location + header_offset m (file_header location i)))
          name
  fill_node-IsFile i m name lt apart there short =
      let node = node_at l i in
      let header = file_header location i in
      let m1 = store32 m (node + 140) 1 in
      let m2 = store32 m1 (node + 148) (header_length m1 header) in
      let m3 = store32 m2 (node + 152) (location + header_offset m2 header) in
      let m4 = store32 m3 (node + 144) i in
      let len1 : header_length m1 header ≡ header_length m header =
        load32-store32_ne m (node + 140) 1 (header + 68) (omega arith) in
      let off2 : header_offset m2 header ≡ header_offset m header =
        load32-store32_ne m1 (node + 148) (header_length m1 header) (header + 64) (omega arith)
        ∙ load32-store32_ne m (node + 140) 1 (header + 64) (omega arith) in
      record {
        named =
            IsString-same m (fill_node l location i m) node name
              (λ a ge le. fill_node_outside i a m (omega arith)) there;
        is_file =
            unfold fill_node in
            (load32-store32_ne m4 (node + 156) l.read_code (node + 140) (omega arith)
              ∙ load32-store32_ne m3 (node + 144) i (node + 140) (omega arith)
              ∙ load32-store32_ne m2 (node + 152) (location + header_offset m2 header) (node + 140)
                  (omega arith)
              ∙ load32-store32_ne m1 (node + 148) (header_length m1 header) (node + 140)
                  (omega arith)
              ∙ load32-store32_self m (node + 140) 1);
        measured =
            unfold fill_node in
            (load32-store32_ne m4 (node + 156) l.read_code (node + 148) (omega arith)
              ∙ load32-store32_ne m3 (node + 144) i (node + 148) (omega arith)
              ∙ load32-store32_ne m2 (node + 152) (location + header_offset m2 header) (node + 148)
                  (omega arith)
              ∙ load32-store32_self m1 (node + 148) (header_length m1 header)
              ∙ omega (arith, load32-lt m (header + 68), len1));
        placed =
            unfold fill_node in
            (load32-store32_ne m4 (node + 156) l.read_code (node + 152) (omega arith)
              ∙ load32-store32_ne m3 (node + 144) i (node + 152) (omega arith)
              ∙ load32-store32_self m2 (node + 152) (location + header_offset m2 header)
              ∙ ap (λ t. u32 (location + t)) off2);
        numbered =
            unfold fill_node in
            (load32-store32_ne m4 (node + 156) l.read_code (node + 144) (omega arith)
              ∙ load32-store32_self m3 (node + 144) i);
        readable = unfold fill_node in load32-store32_self m4 (node + 156) l.read_code;
      }

pub IsFile-same :
    (l : Layout) (m m' : Memory) (j len start : ℕ) (name : List ℕ)
    → length name < 64
    → ((a : ℕ) → node_at l j ≤ a → a < node_at l j + node_bytes → load8 m' a ≡ load8 m a)
    → IsFile l m j len start name
    → IsFile l m' j len start name
IsFile-same l m m' j len start name short same f =
    let field : (k : ℕ)
        → k + 4 ≤ node_bytes
        → load32 m' (node_at l j + k) ≡ load32 m (node_at l j + k) =
      λ k h. load32-same m m' (node_at l j + k) (λ b ge lt. same b (omega arith) (omega arith)) in
    record {
      named =
          IsString-same m m' (node_at l j) name (λ a ge le. same a (omega arith) (omega arith))
            f.named;
      is_file = field 140 (omega arith) ∙ f.is_file;
      measured = field 148 (omega arith) ∙ f.measured;
      placed = field 152 (omega arith) ∙ f.placed;
      numbered = field 144 (omega arith) ∙ f.numbered;
      readable = field 156 (omega arith) ∙ f.readable;
    }
