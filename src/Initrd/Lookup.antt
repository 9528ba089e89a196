-- ===== src/Initrd/Lookup.antt =====
-- `initrd_finddir`: the first file of that name.
use native.Mathlib.Decide.{ℕ_discrete}
use orbit_os.Base.{ℕ, zero, suc, ◌+◌, ◌≤◌, ◌<◌, ◌≡◌, ◌≢◌, ◌⊎◌, arith, refl, inl, inr, some}
use orbit_os.Base.{Bool-cases, List, length, true, false, ◌==◌}
use orbit_os.Base.Int.{ℤ, pos, negsuc}
use orbit_os.Memory.{Memory}
use orbit_os.Strings.{IsString, is_zero}
use orbit_os.Strings.Compare.{strcmp-eq_zero_iff}
use orbit_os.Initrd.{Layout, node_at, find_from, finddir}

is_zero→eq : (r : ℤ) → is_zero r ≡ true → r ≡ pos 0
is_zero→eq (pos n) h = ground arith
is_zero→eq (negsuc n) h = cc

not_zero→ne : (r : ℤ) → is_zero r ≡ false → r ≢ pos 0
not_zero→ne (pos n) h = ground arith
not_zero→ne (negsuc n) h = λ e. cc

module _ (l : Layout) (m : Memory) (names : ℕ → List ℕ) (name : ℕ) (s : List ℕ) where
  -- The nodes of the files from `i` on carry these names, and the fuel is enough for each.
  abbrev pub AreNamed : ℕ → ℕ → ℕ → Type 0
  AreNamed fuel i n =
      (j : ℕ) → i ≤ j → j < n → IsString m (node_at l j) (names j) × (length (names j) < fuel)

  -- The first of the files from `i` on whose name is `s`, or none of them.
  abbrev pub IsFound : ℕ → ℕ → ℕ → Type 0
  IsFound i n result =
      ((j : ℕ) × (i ≤ j)
        × (j < n)
        × (names j ≡ s)
        × ((k : ℕ) → i ≤ k → k < j → names k ≢ s)
        × (result ≡ node_at l j))
      ⊎ (((k : ℕ) → i ≤ k → k < n → names k ≢ s) × (result ≡ 0))

  later : (i n result : ℕ) → names i ≢ s → IsFound (i + 1) n result → IsFound i n result
  later i n result ne (inl (j, ge, lt, e, before, r)) = inl (
    j,
    omega arith,
    lt,
    e,
    λ k ge' lt'. elim (ℕ_discrete i k) [
      | yes same ↦ rw (← same) ne
      | no other ↦ before k (omega arith) lt'
    ],
    r,
  )
  later i n result ne (inr (none_of, r)) = inr (
    λ k ge' lt'. elim (ℕ_discrete i k) [
      | yes same ↦ rw (← same) ne
      | no other ↦ none_of k (omega arith) lt'
    ],
    r,
  )

  find_from-IsFound :
      (fuel left i n : ℕ)
      → IsString m name s
      → AreNamed fuel i n
      → i + left ≡ n
      → (result : ℕ) × (find_from l fuel left i name m ≡ some result) × IsFound i n result
  unfolding find_from
  find_from-IsFound fuel zero i n there named e =
      (0, refl, inr (λ k ge lt. absurd (omega arith), refl))
  find_from-IsFound fuel (suc left) i n there named e =
      let (here, short) = named i (omega arith) (omega arith) in
      let (r, runs, tells) =
        strcmp-eq_zero_iff m (node_at l i) name (names i) s fuel here there short in
      elim (Bool-cases (is_zero r)) [
        | inl zero_r ↦ (
          node_at l i,
          rw (runs, zero_r) refl,
          inl (
            i,
            omega arith,
            omega arith,
            tells.0 (is_zero→eq r zero_r),
            λ k ge lt. absurd (omega arith),
            refl,
          ),
        )
        | inr other ↦
            let (result, goes_on, found) =
              find_from-IsFound fuel left (i + 1) n there (λ j ge lt. named j (omega arith) lt)
                (omega arith) in
            (
              result,
              rw (runs, other) goes_on,
              later i n result (λ same. not_zero→ne r other (tells.1 same)) found,
            )
      ]

  -- With fuel above the length of every file's name, `initrd_finddir` on the root node ends: it
  -- returns the node of the first file of that name, or 0 where no file has it, and writes nothing.
  pub finddir-IsFound :
      (fuel num_files : ℕ)
      → IsString m name s
      → AreNamed fuel 0 num_files
      → (result : ℕ) × (finddir l fuel num_files l.root_node name m ≡ some (result, m))
        × IsFound 0 num_files result
  unfolding finddir
  finddir-IsFound fuel num_files there named =
      let (result, runs, found) =
        find_from-IsFound fuel num_files 0 num_files there named (omega arith) in
      let root : (l.root_node == l.root_node) ≡ true = ground arith in
      (result, rw (root, runs) refl, found)
