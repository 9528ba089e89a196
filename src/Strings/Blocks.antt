-- ===== src/Strings/Blocks.antt =====
-- `memset` and `memcpy`: what every byte of memory holds afterwards.
use orbit_os.Base.{ℕ, zero, suc, ◌+◌, ◌≤◌, ◌<◌, ◌≡◌, ◌≢◌, ◌⊎◌, refl, arith, ◌∙◌}
use orbit_os.Base.{◌&&◌, ltb, leb, if◌then◌else◌, u8}
use orbit_os.Memory.{Memory, load8, store8, load8-store8, load8-lt}
use orbit_os.Strings.{memset, memcpy}

-- `memset` writes the low byte of the value to the `num` bytes from `p` on, and to no other.
pub load8-memset :
    (m : Memory) (p value num a : ℕ)
    → load8 (memset m p value num) a ≡ (if leb p a && ltb a (p + num) then u8 value else load8 m a)
unfolding memset
load8-memset m p value zero a = ground arith
load8-memset m p value (suc num) a =
    ground (
      arith,
      load8-memset (store8 m p (u8 value)) (p + 1) value num a,
      load8-store8 m p (u8 value) a,
    )

pub load8-store8_self : (m : Memory) (a b : ℕ) → load8 (store8 m a (load8 m b)) a ≡ load8 m b
load8-store8_self m a b = ground (arith, load8-store8 m a (load8 m b) a, load8-lt m b)

pub load8-store8_ne : (m : Memory) (a v b : ℕ) → b ≢ a → load8 (store8 m a v) b ≡ load8 m b
load8-store8_ne m a v b ne = ground (arith, load8-store8 m a v b)

-- `memcpy` changes no byte outside the target.
pub load8-memcpy_outside :
    (m : Memory) (d s num a : ℕ) → (a < d) ⊎ (d + num ≤ a) → load8 (memcpy m d s num) a ≡ load8 m a
unfolding memcpy
load8-memcpy_outside m d s zero a h = refl
load8-memcpy_outside m d s (suc num) a h =
    load8-memcpy_outside (store8 m d (load8 m s)) (d + 1) (s + 1) num a (omega arith)
    ∙ load8-store8_ne m d (load8 m s) a (omega arith)

-- If the target does not start inside the source, `memcpy` moves the `num` bytes from `s` on to
-- `d`, each as it was before the call.
pub load8-memcpy_inside :
    (m : Memory) (d s num i : ℕ)
    → (d ≤ s) ⊎ (s + num ≤ d)
    → i < num
    → load8 (memcpy m d s num) (d + i) ≡ load8 m (s + i)
unfolding memcpy
load8-memcpy_inside m d s zero i apart h = absurd (omega arith)
load8-memcpy_inside m d s (suc num) zero apart h =
    let there : d + 0 ≡ d = omega arith in
    let here : s + 0 ≡ s = omega arith in
    rw (there, here)
      (load8-memcpy_outside (store8 m d (load8 m s)) (d + 1) (s + 1) num d (omega arith)
        ∙ load8-store8_self m d s)
load8-memcpy_inside m d s (suc num) (suc i) apart h =
    let there : d + suc i ≡ d + 1 + i = omega arith in
    let here : s + suc i ≡ s + 1 + i = omega arith in
    rw (there, here)
      (load8-memcpy_inside (store8 m d (load8 m s)) (d + 1) (s + 1) num i (omega arith)
          (omega arith)
        ∙ load8-store8_ne m d (load8 m s) (s + 1 + i) (omega arith))
