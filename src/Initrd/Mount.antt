-- ===== src/Initrd/Mount.antt =====
-- `initrd_initialize`: the nodes of the files after the loop over the headers.
use native.Mathlib.Decide.{ℕ_discrete}
use orbit_os.Base.{ℕ, zero, suc, ◌+◌, ◌≤◌, ◌<◌, ◌≡◌, ◌⊎◌, arith, refl}
use orbit_os.Base.{some, List, length, ◌∙◌, ap, u32}
use orbit_os.Memory.{Memory, load8, load32, load32-same}
use orbit_os.Strings.{IsString, strcpy}
use orbit_os.Strings.Copy.{IsString-same, strcpy-IsCopied}
use orbit_os.Initrd.{
  Layout, node_at, file_header, header_offset, header_length, max_files, fill_node, load_files,
}
use orbit_os.Initrd.Filled.{IsFile, HeadersApart, fill_node_outside, fill_node-IsFile, IsFile-same}

module _ (l : Layout) (location fuel : ℕ) (names : ℕ → List ℕ) where
  -- The headers of the files from `i` up to `n` hold these names, which fit their 64 bytes.
  abbrev pub AreHeaders : Memory → ℕ → ℕ → Type 0
  AreHeaders m i n =
      (j : ℕ)
      → i ≤ j
      → j < n
      → IsString m (file_header location j) (names j) × (length (names j) < 64)

  -- What the header of file `j` says of it.
  abbrev pub IsLoaded : Memory → Memory → ℕ → Type 0
  IsLoaded m m' j =
      IsFile l m' j (header_length m (file_header location j))
        (u32 (location + header_offset m (file_header location j))) (names j)

  -- The nodes from `i` up to `n` are written, and no other byte.
  abbrev pub AreLoaded : Memory → Memory → ℕ → ℕ → Type 0
  AreLoaded m m' i n =
      ((j : ℕ) → i ≤ j → j < n → IsLoaded m m' j)
      × ((a : ℕ) → (a < node_at l i) ⊎ (node_at l n ≤ a) → load8 m' a ≡ load8 m a)

  -- One file: the name is copied and the fields are filled in.
  load_one :
      (i : ℕ) (m : Memory)
      → i < max_files
      → HeadersApart l location
      → IsString m (file_header location i) (names i)
      → length (names i) < 64
      → 64 ≤ fuel
      → (m' : Memory) × (strcpy fuel m (node_at l i) (file_header location i) ≡ some m')
        × IsLoaded m (fill_node l location i m') i
        × ((a : ℕ)
            → (a < node_at l i) ⊎ (node_at l (i + 1) ≤ a)
            → load8 (fill_node l location i m') a ≡ load8 m a)
  load_one i m lt apart there short enough =
      let (m', runs, (copied, out)) =
        strcpy-IsCopied fuel m (node_at l i) (file_header location i) (names i) there (omega arith)
          (omega arith) in
      let file = fill_node-IsFile l location i m' (names i) lt apart copied short in
      let word : (k : ℕ)
          → k + 4 ≤ 72
          → load32 m' (file_header location i + k) ≡ load32 m (file_header location i + k) =
        λ k h. load32-same m m' (file_header location i + k) (λ b ge' lt'. out b (omega arith)) in
      (
        m',
        runs,
        record {
          named = file.named;
          is_file = file.is_file;
          measured = file.measured ∙ word 68 (omega arith);
          placed = file.placed ∙ ap (λ t. u32 (location + t)) (word 64 (omega arith));
          numbered = file.numbered;
          readable = file.readable;
        },
        λ a o. fill_node_outside l location i a m' (omega arith) ∙ out a (omega arith),
      )

  -- With the headers apart from the nodes and names that fit their fields, the loop of
  -- `initrd_initialize` over at most 64 headers ends: each node holds the name, length, place and
  -- number of its file and can be read, and no byte outside those nodes has changed.
  pub load_files-AreLoaded :
      (left i n : ℕ) (m : Memory)
      → i + left ≡ n
      → n ≤ max_files
      → HeadersApart l location
      → AreHeaders m i n
      → 64 ≤ fuel
      → (m' : Memory) × (load_files l fuel location left i m ≡ some m') × AreLoaded m m' i n
  unfolding load_files
  load_files-AreLoaded zero i n m e le apart headers enough =
      (m, refl, (λ j ge lt. absurd (omega arith), λ a o. refl))
  load_files-AreLoaded (suc left) i n m e le apart headers enough =
      let (there, short) = headers i (omega arith) (omega arith) in
      let (m1, runs, first, out) = load_one i m (omega arith) apart there short enough in
      let m2 = fill_node l location i m1 in
      let header_same : (j a : ℕ)
          → file_header location j ≤ a
          → a < file_header location j + 72
          → i ≤ j
          → j < n
          → load8 m2 a ≡ load8 m a =
        λ j a ge lt ge' lt'. out a (omega arith) in
      let headers2 : AreHeaders m2 (i + 1) n = λ j ge lt.
        let (there_j, short_j) = headers j (omega arith) lt in
        (
          IsString-same m m2 (file_header location j) (names j)
              (λ a ge' le'. header_same j a ge' (omega arith) (omega arith) lt) there_j,
          short_j,
        ) in
      let (m', goes_on, (files, out')) =
        load_files-AreLoaded left (i + 1) n m2 (omega arith) le apart headers2 enough in
      let word : (j k : ℕ)
          → k + 4 ≤ 72
          → i ≤ j
          → j < n
          → load32 m2 (file_header location j + k) ≡ load32 m (file_header location j + k) =
        λ j k h ge lt.
          load32-same m m2 (file_header location j + k)
            (λ b ge' lt'. header_same j b (omega arith) (omega arith) ge lt) in
      (
        m',
        rw runs goes_on,
        (
          λ j ge lt. elim (ℕ_discrete i j) [
            | yes same ↦ rw (← same) (
                IsFile-same l m2 m' i (header_length m (file_header location i))
                  (u32 (location + header_offset m (file_header location i))) (names i) short
                  (λ a ge' lt'. out' a (omega arith)) first)
            | no other ↦
                let f = files j (omega arith) lt in
                record {
                  named = f.named;
                  is_file = f.is_file;
                  measured = f.measured ∙ word j 68 (omega arith) ge lt;
                  placed = f.placed ∙ ap (λ t. u32 (location + t)) (word j 64 (omega arith) ge lt);
                  numbered = f.numbered;
                  readable = f.readable;
                }
          ],
          λ a o. out' a (omega arith) ∙ out a (omega arith),
        ),
      )
