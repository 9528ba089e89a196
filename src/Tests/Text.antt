-- ===== src/Tests/Text.antt =====
-- kernel/string.c on strings in a small memory.
use orbit_os.Base.{◌↔◌}
use orbit_os.Strings.{strncmp}
use orbit_os.Strings.Compare.{strncmp-eq_zero_iff}
use orbit_os.Base.Int.{pos}
use orbit_os.Base.Int.{negsuc}
use orbit_os.Base.{some}
use orbit_os.Strings.{itoa}
use orbit_os.Strings.Itoa.{IsPrinted, itoa-IsPrinted}
use orbit_os.Base.{ℕ, ◌≡◌, ◌↔◌, refl, arith, List, [], ◌∷◌, some}
use orbit_os.Base.Int.{ℤ, pos}
use orbit_os.Memory.{Memory, load8, store8}
use orbit_os.Strings.{strcmp, IsString}
use orbit_os.Strings.Compare.{strcmp-eq_zero_iff}

-- "ls" at 100 and "lsp" at 200.
abbrev words : Memory
words =
    store8 (store8 (store8 (store8 (store8 (λ a. 0) 100 b'l') 101 b's') 200 b'l') 201 b's') 202 b'p'

abbrev ls : List ℕ
ls = b'l' ∷ b's' ∷ []

abbrev lsp : List ℕ
lsp = b'l' ∷ b's' ∷ b'p' ∷ []

ls_there : IsString words 100 ls
unfolding load8 store8
ls_there = (refl, omega arith, (refl, omega arith, refl))

lsp_there : IsString words 200 lsp
unfolding load8 store8
lsp_there = (refl, omega arith, (refl, omega arith, (refl, omega arith, refl)))

strcmp-eq_zero_iff_example :
    (r : ℤ) × (strcmp 9 words 100 200 ≡ some r) × ((r ≡ pos 0) ↔ (ls ≡ lsp))
strcmp-eq_zero_iff_example =
    strcmp-eq_zero_iff words 100 200 ls lsp 9 ls_there lsp_there (omega arith)

itoa-IsPrinted_example :
    (m' : Memory) × (k : ℕ) × (itoa 32 (λ a. 0) (negsuc 41) 0x100 10 ≡ some m')
    × IsPrinted m' 0x100 10 (negsuc 41) k
itoa-IsPrinted_example =
    itoa-IsPrinted 32 (λ a. 0) (negsuc 41) 0x100 10 (omega arith) (omega arith) (omega arith)
      (omega arith, refl)

strncmp-eq_zero_iff_example : (strncmp words 100 200 2 ≡ pos 0) ↔ (ls ≡ ls)
strncmp-eq_zero_iff_example = strncmp-eq_zero_iff words 100 200 2 ls lsp ls_there lsp_there
