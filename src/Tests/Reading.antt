-- ===== src/Tests/Reading.antt =====
-- "cat" on a file of two characters.
use orbit_os.Base.{◌≡◌, refl, arith, some, inl, false, []}
use orbit_os.Memory.{Memory, load8, store8, load32, store32}
use orbit_os.Fs
use orbit_os.Fs.{fs_finddir, is_directory}
use orbit_os.Initrd
use orbit_os.Terminal.{Terminal, puts}
use orbit_os.Shell.{print_text}
use orbit_os.Shell.Files.{Code, cat}
use orbit_os.Shell.Line.{bytes_at}
use orbit_os.Shell.Cat.{cat-puts}
use orbit_os.Shell.Piece.{IsText, IsSameOutside}

abbrev screen : Terminal
screen = record { row = 3; column = 0; color = 7; cells = λ i. 0; ports = [] }

-- The root at 0x3F00, the node of the file at 0x3000 and "hi" at 0x2000.
abbrev disk : Memory
disk =
    let text = store8 (store8 (λ a. 0) 0x2000 b'h') 0x2001 b'i' in
    let root = store32 (store32 text 0x3F8C 2) 0x3FB0 0x300 in
    store32 (store32 (store32 (store32 root 0x308C 1) 0x3094 2) 0x3098 0x2000) 0x309C 0x100

-- Every name is that of the file.
abbrev code : Code
code = record {
  readdir = λ op node index m. some (0, m);
  finddir = λ op node name m. some (0x3000, m);
  read = λ op node offset size b m. Initrd.read node offset size b m;
}

found : fs_finddir code.finddir 0x3F00 0x500 disk ≡ some (0x3000, disk)
unfolding fs_finddir load32 load8 store32 store8
found = refl

is_file : is_directory disk 0x3000 ≡ false
unfolding load32 load8 store32 store8
is_file = refl

text_length : Fs.file_length disk 0x3000 ≡ 2
unfolding load32 load8 store32 store8
text_length = refl

text_place : Fs.impl disk 0x3000 ≡ 0x2000
unfolding load32 load8 store32 store8
text_place = refl

disk-IsText : IsText disk 0x100 0x3000 0x1000
unfolding load32 load8 store32 store8 bytes_at
disk-IsText = record {
  readable = refl;
  fits = omega arith;
  contents = (omega arith, (omega arith, tt));
  node_apart = inl (omega arith);
  contents_apart = inl (omega arith);
}

cat-puts_example :
    (m' : Memory) × (cat code 256 2 0x3F00 0x500 0x1000 disk screen
      ≡ some (
        m',
        print_text "\n"
            (puts (bytes_at disk (Fs.impl disk 0x3000) (Fs.file_length disk 0x3000)) screen),
      ))
    × IsSameOutside 0x1000 disk m'
cat-puts_example =
    cat-puts code 256 0x100 0x3000 0x1000 (omega arith) (omega arith) (λ offset size b m. refl) 2
      0x3F00 0x500 disk screen (omega arith) (omega arith) found is_file disk-IsText
      (omega (arith, text_length))
