-- ===== src/Shell/Cat.antt =====
-- "cat" on a file of the ramdisk: what is printed.
use native.Mathlib.Decide.{ℕ_discrete}
use orbit_os.Base.{ℕ, zero, suc, ◌+◌, ◌-◌, ◌*◌, ◌^◌, ◌≤◌, ◌<◌, ◌≡◌, ◌≢◌, ◌⊎◌, ◌∙◌, refl, arith, ap}
use orbit_os.Base.{◌==◌, ltb, if◌then◌else◌, false, u32}
use orbit_os.Base.{some, sym}
use orbit_os.Memory.{Memory, store8, load32-lt}
use orbit_os.Fs
use orbit_os.Fs.{fs_read, fs_finddir, is_directory}
use orbit_os.Initrd
use orbit_os.Terminal.{Terminal, puts, writestring}
use orbit_os.Terminal.Text.{writestring-puts}
use orbit_os.Shell.{print_text}
use orbit_os.Shell.Files.{Code, cat_loop, cat}
use orbit_os.Shell.Line.{bytes_at, length-bytes_at, bytes_at-same}
use orbit_os.Shell.Piece.{
  IsSameOutside, IsText, puts-++, bytes_at-add, field-same, IsText-same, read_piece,
}

module _ (code : Code) (fuel read_code node buf : ℕ) (enough : 256 ≤ fuel) (there : read_code ≢ 0)
    (reads : (offset size b : ℕ) (m : Memory)
      → code.read read_code node offset size b m ≡ Initrd.read node offset size b m) where
  -- The first piece and the rest make the whole.
  pieces :
      (m m2 : Memory) (offset n sz : ℕ) (t : Terminal)
      → IsText m read_code node buf
      → IsSameOutside buf m m2
      → n ≤ sz
      → offset + sz ≡ Fs.file_length m node
      → puts
          (bytes_at m2 (Fs.impl m2 node + (offset + n)) (sz - n))
          (puts (bytes_at m (Fs.impl m node + offset) n) t)
        ≡ puts (bytes_at m (Fs.impl m node + offset) sz) t
  pieces m m2 offset n sz t text same le e =
      let start : Fs.impl m2 node ≡ Fs.impl m node =
        field-same read_code node buf m m2 152 text same (omega arith) in
      let place : Fs.impl m node + (offset + n) ≡ Fs.impl m node + offset + n = omega arith in
      let whole : n + (sz - n) ≡ sz = omega arith in
      let kept =
        bytes_at-same m m2 (Fs.impl m node + offset + n) (sz - n)
          (λ b ge lt. same b (omega (arith, text.contents_apart))) in
      rw (start, place, kept)
        (sym (
            puts-++ (bytes_at m (Fs.impl m node + offset) n)
              (bytes_at m (Fs.impl m node + offset + n) (sz - n)) t)
          ∙ ap (λ l. puts l t)
              (sym (bytes_at-add m (Fs.impl m node + offset) n (sz - n))
                ∙ ap (λ k. bytes_at m (Fs.impl m node + offset) k) whole))

  -- One round of the loop.
  cat_step :
      (rounds offset sz n : ℕ) (m : Memory) (t : Terminal) {t' : Terminal}
      → n ≡ (if ltb 255 sz then 255 else sz)
      → sz ≢ 0
      → n ≢ 0
      → sz < 2 ^ 32
      → offset + n < 2 ^ 32
      → n ≤ sz
      → (fs_read code.read node offset n buf m).0 ≡ n
      → writestring fuel (store8 (fs_read code.read node offset n buf m).1 (buf + n) 0) buf t
        ≡ some t'
      → cat_loop code fuel (suc rounds) node buf sz offset m t
        ≡ cat_loop code fuel rounds node buf
            (sz - n)
            (offset + n)
            (store8 (fs_read code.read node offset n buf m).1 (buf + n) 0)
            t'
  unfolding cat_loop
  cat_step rounds offset sz n m t e some_left positive wide near le count printed =
      let more : (sz == 0) ≡ false = ground arith in
      let got : (n == 0) ≡ false = ground arith in
      let left : u32 (sz + 2 ^ 32 - n) ≡ sz - n = omega arith in
      let next : u32 (offset + n) ≡ offset + n = omega arith in
      rw (cat_loop, more, ← e, count, got, ← e, count, printed, left, next) refl

  -- What "cat" prints of a file, from an offset on, and that only the buffer changes.
  cat_loop-puts :
      (rounds offset sz : ℕ) (m : Memory) (t : Terminal)
      → IsText m read_code node buf
      → offset + sz ≡ Fs.file_length m node
      → sz + 255 ≤ 255 * rounds
      → (m' : Memory) × (cat_loop code fuel rounds node buf sz offset m t
          ≡ some (m', puts (bytes_at m (Fs.impl m node + offset) sz) t))
        × IsSameOutside buf m m'
  unfolding cat_loop bytes_at puts
  cat_loop-puts zero offset sz m t text e left = absurd (omega arith)
  cat_loop-puts (suc rounds) offset sz m t text e left = elim (ℕ_discrete sz 0) [
    | yes none_left ↦ rw none_left (m, refl, λ a out. refl)
    | no some_left ↦
        let n = if ltb 255 sz then 255 else sz in
        let small : n ≤ 255 = ground arith in
        let inside : n ≤ sz = ground arith in
        let full : (n ≡ 255) ⊎ (n ≡ sz) = ground arith in
        let positive : n ≢ 0 = ground arith in
        let (count, string, same) =
          read_piece code read_code node buf there reads m offset n text small (omega arith) in
        let m2 = store8 (fs_read code.read node offset n buf m).1 (buf + n) 0 in
        let s = bytes_at m (Fs.impl m node + offset) n in
        let printed =
          writestring-puts m2 buf fuel s t string
            (omega (arith, length-bytes_at m (Fs.impl m node + offset) n)) in
        let (m', runs, same') =
          cat_loop-puts rounds (offset + n) (sz - n) m2 (puts s t)
            (IsText-same read_code node buf m m2 text same)
            (omega (arith, field-same read_code node buf m m2 148 text same (omega arith)))
            (omega (arith, full)) in
        (
          m',
          cat_step rounds offset sz n m t refl some_left positive
                (omega (arith, load32-lt m (node + 148))) (omega (arith, load32-lt m (node + 148)))
                inside count printed
              ∙ runs
              ∙ ap (λ u. some (m', u)) (pieces m m2 offset n sz t text same inside e),
          λ a out. same' a out ∙ same a out,
        )
  ]

  -- Where the lookup in the mounted root finds a file of the ramdisk without a zero byte, with enough
  -- fuel for its length, "cat" ends and prints exactly the contents of the file and the end of the
  -- line, however long the file is; it writes only its buffer.
  pub cat-puts :
      (rounds root filename : ℕ) (m : Memory) (t : Terminal)
      → root ≢ 0
      → node ≢ 0
      → fs_finddir code.finddir root filename m ≡ some (node, m)
      → is_directory m node ≡ false
      → IsText m read_code node buf
      → Fs.file_length m node + 255 ≤ 255 * rounds
      → (m' : Memory) × (cat code fuel rounds root filename buf m t
          ≡ some
              (m', print_text "\n" (puts (bytes_at m (Fs.impl m node) (Fs.file_length m node)) t)))
        × IsSameOutside buf m m'
  unfolding cat
  cat-puts rounds root filename m t mounted ne found file text left =
      let has_root : (root == 0) ≡ false = ground arith in
      let has_node : (node == 0) ≡ false = ground arith in
      let start : Fs.impl m node + 0 ≡ Fs.impl m node = omega arith in
      let (m', runs, same) =
        cat_loop-puts rounds 0 (Fs.file_length m node) m t text (omega arith) left in
      (m', rw (has_root, found, has_node, file, runs, start) refl, same)
