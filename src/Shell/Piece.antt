-- ===== src/Shell/Piece.antt =====
-- One piece of a file of the ramdisk in the buffer of "cat".
use orbit_os.Base.{ℕ, zero, suc, ◌+◌, ◌-◌, ◌^◌, ◌≤◌, ◌<◌, ◌≡◌, ◌≢◌, ◌⊎◌, ◌∙◌, refl, arith, ap}
use orbit_os.Base.{◌==◌, List, [], ◌∷◌, ◌++◌, false, min}
use orbit_os.Memory.{Memory, load32, load8, store8, load32-same, load32-lt, load8-store8}
use orbit_os.Strings.Blocks.{load8-store8_ne}
use orbit_os.Strings.{IsString}
use orbit_os.Strings.Compare.{NonZero}
use orbit_os.Fs
use orbit_os.Fs.{fs_read, fs_finddir, is_directory}
use orbit_os.Initrd
use orbit_os.Initrd.Reading.{read-slice}
use orbit_os.Terminal.{Terminal, puts, putchar}
use orbit_os.Shell.Files.{Code}
use orbit_os.Shell.Line.{bytes_at, bytes_at-same}
use orbit_os.Shell.Enter.{IsString-bytes_at}

bytes_at-copy :
    (m m' : Memory) (a b n : ℕ)
    → ((i : ℕ) → i < n → load8 m' (b + i) ≡ load8 m (a + i))
    → bytes_at m' b n ≡ bytes_at m a n
unfolding bytes_at
bytes_at-copy m m' a b zero same = refl
bytes_at-copy m m' a b (suc n) same =
    let b0 : b + 0 ≡ b = omega arith in
    let a0 : a + 0 ≡ a = omega arith in
    let here : load8 m' b ≡ load8 m a = rw (b0, a0) at (same 0 (omega arith)) in
    let later : (i : ℕ) → i < n → load8 m' (b + 1 + i) ≡ load8 m (a + 1 + i) = λ i lt.
      let bi : b + suc i ≡ b + 1 + i = omega arith in
      let ai : a + suc i ≡ a + 1 + i = omega arith in rw (bi, ai) at (same (suc i) (omega arith)) in
    rw (here, bytes_at-copy m m' (a + 1) (b + 1) n later) refl

pub bytes_at-add :
    (m : Memory) (a n k : ℕ) → bytes_at m a (n + k) ≡ bytes_at m a n ++ bytes_at m (a + n) k
unfolding bytes_at
bytes_at-add m a zero k =
    let e : a + 0 ≡ a = omega arith in let e' : 0 + k ≡ k = omega arith in rw (e, e') refl
bytes_at-add m a (suc n) k =
    let e : a + suc n ≡ a + 1 + n = omega arith in
    let e' : suc n + k ≡ suc (n + k) = omega arith in
    rw (e, e') (ap (load8 m a ∷◌) (bytes_at-add m (a + 1) n k))

NonZero-++ : (s s' : List ℕ) → NonZero (s ++ s') → NonZero s × NonZero s'
NonZero-++ [] s' h = (tt, h)
NonZero-++ (c ∷ s) s' h = let (l, r) = NonZero-++ s s' h.1 in ((h.0, l), r)

NonZero-bytes_at :
    (m : Memory) (a offset n len : ℕ)
    → offset + n ≤ len
    → NonZero (bytes_at m a len)
    → NonZero (bytes_at m (a + offset) n)
NonZero-bytes_at m a offset n len le h =
    let whole : len ≡ offset + (n + (len - offset - n)) = omega arith in
    let parts =
      rw
        (
          whole,
          bytes_at-add m a offset (n + (len - offset - n)),
          bytes_at-add m (a + offset) n (len - offset - n),
        )
        at h in
    (NonZero-++ _ _ (NonZero-++ _ _ parts).1).0

pub puts-++ : (s s' : List ℕ) (t : Terminal) → puts (s ++ s') t ≡ puts s' (puts s t)
unfolding puts
puts-++ [] s' t = refl
puts-++ (c ∷ s) s' t = puts-++ s s' (putchar c t)

-- The bytes outside the 256 of the buffer are the same.
abbrev pub IsSameOutside : ℕ → Memory → Memory → Type 0
IsSameOutside buf m m' = (a : ℕ) → (a < buf) ⊎ (buf + 256 ≤ a) → load8 m' a ≡ load8 m a

-- A file of the ramdisk: its node points to the reading function, its contents lie below 2 ^ 32 and
-- hold no zero byte, and the buffer lies apart from both.
pub record IsText (m : Memory) (read_code node buf : ℕ) : Type 0 where
  pub readable : Fs.read_op m node ≡ read_code
  pub fits : Fs.impl m node + Fs.file_length m node ≤ 2 ^ 32
  pub contents : NonZero (bytes_at m (Fs.impl m node) (Fs.file_length m node))
  pub node_apart : (buf + 256 ≤ node) ⊎ (node + 184 ≤ buf)
  pub contents_apart : (buf + 256 ≤ Fs.impl m node) ⊎ (Fs.impl m node + Fs.file_length m node ≤ buf)

module _ (read_code node buf : ℕ) where
  -- A field of the node, where only the buffer has changed.
  pub field-same :
      (m m' : Memory) (k : ℕ)
      → IsText m read_code node buf
      → IsSameOutside buf m m'
      → k + 4 ≤ 184
      → load32 m' (node + k) ≡ load32 m (node + k)
  field-same m m' k text same h =
      load32-same m m' (node + k) (λ b ge lt. same b (omega (arith, text.node_apart)))

  pub IsText-same :
      (m m' : Memory)
      → IsText m read_code node buf
      → IsSameOutside buf m m'
      → IsText m' read_code node buf
  IsText-same m m' text same =
      let len : Fs.file_length m' node ≡ Fs.file_length m node =
        field-same m m' 148 text same (omega arith) in
      let start : Fs.impl m' node ≡ Fs.impl m node = field-same m m' 152 text same (omega arith) in
      record {
        readable = field-same m m' 156 text same (omega arith) ∙ text.readable;
        fits = rw (len, start) text.fits;
        contents =
            rw
              (
                len,
                start,
                bytes_at-same m m' (Fs.impl m node) (Fs.file_length m node)
                    (λ b ge lt. same b (omega (arith, text.contents_apart))),
              )
              text.contents;
        node_apart = text.node_apart;
        contents_apart = rw (len, start) text.contents_apart;
      }

module _ (code : Code) (read_code node buf : ℕ) (there : read_code ≢ 0)
    (reads : (offset size b : ℕ) (m : Memory)
      → code.read read_code node offset size b m ≡ Initrd.read node offset size b m) where
  -- One piece of the file: `fs_read` puts it into the buffer as a string.
  pub read_piece :
      (m : Memory) (offset n : ℕ)
      → IsText m read_code node buf
      → n ≤ 255
      → offset + n ≤ Fs.file_length m node
      → ((fs_read code.read node offset n buf m).0 ≡ n)
        × IsString
            (store8 (fs_read code.read node offset n buf m).1 (buf + n) 0)
            buf
            (bytes_at m (Fs.impl m node + offset) n)
        × IsSameOutside buf m (store8 (fs_read code.read node offset n buf m).1 (buf + n) 0)
  unfolding fs_read
  read_piece m offset n text le fits =
      let test : (Fs.read_op m node == 0) ≡ false = rw text.readable (ground arith) in
      let count : min n (Fs.file_length m node - offset) ≡ n = omega arith in
      let m1 = (Initrd.read node offset n buf m).1 in
      let m2 = store8 m1 (buf + n) 0 in
      let (result, copied, outside) =
        read-slice node offset n buf m (omega (arith, load32-lt m (node + 148))) text.fits
          (omega (arith, text.contents_apart)) in
      let bytes : bytes_at m2 buf n ≡ bytes_at m (Fs.impl m node + offset) n =
        bytes_at-copy m m2 (Fs.impl m node + offset) buf n (λ i lt.
          load8-store8_ne m1 (buf + n) 0 (buf + i) (omega arith)
          ∙ copied i (omega (arith, count))) in
      let nz =
        NonZero-bytes_at m (Fs.impl m node) offset n (Fs.file_length m node) fits text.contents in
      let zero_there : load8 m2 (buf + n) ≡ 0 =
        load8-store8 m1 (buf + n) 0 (buf + n) ∙ ground arith in
      rw (test, text.readable, reads offset n buf m)
        (
          result ∙ count,
          rw (← bytes) (IsString-bytes_at m2 buf n (rw bytes nz) zero_there),
          λ a out.
              load8-store8_ne m1 (buf + n) 0 a (omega arith) ∙ outside a (omega (arith, count)),
        )
