-- ===== src/Strings/Copy.antt =====
-- `strcpy`: where the copy stands, and what it leaves alone.
use orbit_os.Base.{ℕ, zero, suc, ◌+◌, ◌≤◌, ◌<◌, ◌≡◌, ◌⊎◌, refl, arith, ◌∙◌}
use orbit_os.Base.{false, ◌==◌, List, [], ◌∷◌, length, some}
use orbit_os.Memory.{Memory, load8, store8, load8-store8}
use orbit_os.Strings.{strcpy, IsString}
use orbit_os.Strings.Blocks.{load8-store8_self, load8-store8_ne}

-- A string stands where its bytes, the end included, are unchanged.
pub IsString-same :
    (m m' : Memory) (str : ℕ) (s : List ℕ)
    → ((a : ℕ) → str ≤ a → a ≤ str + length s → load8 m' a ≡ load8 m a)
    → IsString m str s
    → IsString m' str s
IsString-same m m' str [] same h = same str (omega arith) (omega arith) ∙ h
IsString-same m m' str (c ∷ s) same h = (
  same str (omega arith) (omega arith) ∙ h.0,
  h.1,
  IsString-same m m' (str + 1) s (λ a ge le. same a (omega arith) (omega arith)) h.2,
)

-- What `strcpy` leaves: the string at `d`, and every other byte as it was.
abbrev pub IsCopied : Memory → ℕ → List ℕ → Memory → Type 0
IsCopied m d s m' =
    IsString m' d s × ((a : ℕ) → (a < d) ⊎ (d + length s < a) → load8 m' a ≡ load8 m a)

-- With fuel above its length, `strcpy` of a string that the target does not overlap ends; the
-- string stands at the target, its end included, and no other byte has changed.
pub strcpy-IsCopied :
    (fuel : ℕ) (m : Memory) (d src : ℕ) (s : List ℕ)
    → IsString m src s
    → length s < fuel
    → (d + length s < src) ⊎ (src + length s < d)
    → (m' : Memory) × (strcpy fuel m d src ≡ some m') × IsCopied m d s m'
unfolding strcpy
strcpy-IsCopied zero m d src s h f apart = absurd (omega arith)
strcpy-IsCopied (suc fuel) m d src [] h f apart = (
  store8 m d 0,
  rw h refl,
  (ground (arith, load8-store8 m d 0 d), λ a out. load8-store8_ne m d 0 a (omega arith)),
)
strcpy-IsCopied (suc fuel) m d src (c ∷ s) h f apart =
    let m1 = store8 m d (load8 m src) in
    let there : IsString m1 (src + 1) s =
      IsString-same m m1 (src + 1) s (λ a ge le. load8-store8_ne m d (load8 m src) a (omega arith))
        h.2 in
    let (m', runs, (copied, out)) =
      strcpy-IsCopied fuel m1 (d + 1) (src + 1) s there (omega arith) (omega arith) in
    let more : (load8 m src == 0) ≡ false = ground (arith, h.0, h.1) in
    (
      m',
      rw more runs,
      (
        (out d (omega arith) ∙ load8-store8_self m d src ∙ h.0, h.1, copied),
        λ a o. out a (omega arith) ∙ load8-store8_ne m d (load8 m src) a (omega arith),
      ),
    )
