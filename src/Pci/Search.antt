-- ===== src/Pci/Search.antt =====
-- `pci_find_device` on a configuration space that does not change.
use native.Mathlib.Decide.{ℕ_discrete, dec_lt}
use orbit_os.Base.{ℕ, zero, suc, ◌+◌, ◌-◌, ◌*◌, ◌/◌, ◌%◌, ◌≤◌, ◌<◌, ◌≡◌, ◌≢◌, ◌⊎◌, refl, arith}
use orbit_os.Base.{◌∙◌, ap, inl, inr, Option, some, none, ◌==◌, ◌&&◌, u8, u32, ◌∷◌}
use orbit_os.Base.{Bool, Bool-cases, true, false}
use orbit_os.Pci.{
  Log, Device, Place, config_address, address, read_config, vendor_of, device_of, is_single,
  find_func,
}

-- The bus answers each address with the same word, whatever was written before.
abbrev pub Answers : Device → (ℕ → ℕ) → Type 0
Answers dev config = (a : ℕ) (log : Log) → u32 (dev ((config_address, u32 a) ∷ log)) ≡ config a

-- The `k`-th place in the order of the three loops.
abbrev pub place : ℕ → Place
place k = (k / 256, k / 8 % 32, k % 8)

module _ (config : ℕ → ℕ) (vendor_id device_id : ℕ) where
  abbrev pub ids_at : ℕ → ℕ → ℕ → ℕ
  ids_at bus slot func = config (address bus slot func 0)

  abbrev pub header_at : ℕ → ℕ → ℕ → ℕ
  header_at bus slot func = config (address bus slot func 0x0C)

  -- The device is at that place, and the code looks there: at function 0 of every slot, and at the
  -- others where function 0 says that the device has several.
  abbrev pub IsHitAt : ℕ → ℕ → ℕ → Type 0
  IsHitAt bus slot func =
      (vendor_of (ids_at bus slot func) ≡ vendor_id)
      × (device_of (ids_at bus slot func) ≡ device_id)
      × ((func ≡ 0) ⊎ (is_single (header_at bus slot 0) ≡ false))

  abbrev pub IsHit : ℕ → Type 0
  IsHit k = IsHitAt (k / 256) (k / 8 % 32) (k % 8)

  abbrev pub HasNoHit : ℕ → ℕ → Type 0
  HasNoHit lo hi = (k : ℕ) → lo ≤ k → k < hi → ¬ IsHit k

  -- The first place from `lo` up to `hi` that is a hit, or none.
  abbrev pub IsFirst : ℕ → ℕ → Option Place → Type 0
  IsFirst lo hi r =
      ((k : ℕ) × (lo ≤ k) × (k < hi) × IsHit k × HasNoHit lo k × (r ≡ some (place k)))
      ⊎ (HasNoHit lo hi × (r ≡ none))

  HasNoHit-join : (lo mid hi : ℕ) → HasNoHit lo mid → HasNoHit mid hi → HasNoHit lo hi
  HasNoHit-join lo mid hi f g k ge lt = elim (dec_lt k mid) [
    | yes before ↦ f k ge before
    | no after ↦ g k (omega arith) lt
  ]

  pub IsFirst-join :
      (lo mid hi : ℕ) (r : Option Place)
      → lo ≤ mid
      → HasNoHit lo mid
      → IsFirst mid hi r
      → IsFirst lo hi r
  IsFirst-join lo mid hi r le f (inl (k, ge, lt, hit, before, e)) =
      inl (k, omega arith, lt, hit, HasNoHit-join lo mid k f before, e)
  IsFirst-join lo mid hi r le f (inr (g, e)) = inr (HasNoHit-join lo mid hi f g, e)

  module _ (dev : Device) (answers : Answers dev config) where
    reads :
        (bus slot func offset : ℕ) (log : Log)
        → (read_config dev bus slot func offset log).0 ≡ config (address bus slot func offset)
    unfolding read_config
    reads bus slot func offset log = answers (address bus slot func offset) log

    module _ (bus slot base : ℕ) (hb : bus < 256) (hs : slot < 32)
        (at : base ≡ (bus * 32 + slot) * 8) where
      IsHitAt-IsHit : (func : ℕ) → func < 8 → IsHitAt bus slot func → IsHit (base + func)
      IsHitAt-IsHit func hf hit =
          let b : (base + func) / 256 ≡ bus = omega arith in
          let s : (base + func) / 8 % 32 ≡ slot = omega arith in
          let f : (base + func) % 8 ≡ func = omega arith in rw (b, s, f) hit

      at_hit : (func : ℕ) → func < 8 → IsHit (base + func) → IsHitAt bus slot func
      at_hit func hf =
          let b : (base + func) / 256 ≡ bus = omega arith in
          let s : (base + func) / 8 % 32 ≡ slot = omega arith in
          let f : (base + func) % 8 ≡ func = omega arith in rw (b, s, f) (λ h. h)

      no_hit_here :
          (func : ℕ) → func < 8 → ¬ IsHitAt bus slot func → HasNoHit (base + func) (base + func + 1)
      no_hit_here func hf no_hit k ge lt hit =
          let e : k ≡ base + func = omega arith in no_hit (at_hit func hf (rw (← e) hit))

      test_at : ℕ → Bool
      test_at func =
          vendor_of (ids_at bus slot func) == vendor_id
          && device_of (ids_at bus slot func) == device_id

      after_ids : ℕ → Log → Log
      after_ids func log = (config_address, u32 (address bus slot func 0)) ∷ log

      after_header : ℕ → Log → Log
      after_header func log =
          (config_address, u32 (address bus slot func 0x0C)) ∷ after_ids func log

      find_func-found :
          (left func : ℕ) (log : Log)
          → test_at func ≡ true
          → (find_func dev vendor_id device_id bus slot (suc left) func log).0
            ≡ some (u8 bus, u8 slot, u8 func)
      unfolding find_func read_config test_at
      find_func-found left func log e = rw (answers (address bus slot func 0) log, e) refl

      find_func-single :
          (left func : ℕ) (log : Log)
          → test_at func ≡ false
          → func ≡ 0
          → is_single (header_at bus slot func) ≡ true
          → (find_func dev vendor_id device_id bus slot (suc left) func log).0 ≡ none
      unfolding find_func read_config test_at after_ids
      find_func-single left func log e z s =
          let first : (func == 0) ≡ true = ground arith in
          rw
            (
              answers (address bus slot func 0) log,
              e,
              first,
              answers (address bus slot func 0x0C) (after_ids func log),
              s,
            )
            refl

      find_func-next :
          (left func : ℕ) (log : Log)
          → test_at func ≡ false
          → func ≢ 0
          → find_func dev vendor_id device_id bus slot (suc left) func log
            ≡ find_func dev vendor_id device_id bus slot left (func + 1) (after_ids func log)
      unfolding find_func read_config test_at after_ids
      find_func-next left func log e ne =
          let later : (func == 0) ≡ false = ground arith in
          rw (answers (address bus slot func 0) log, e, later) refl

      find_func-multi :
          (left func : ℕ) (log : Log)
          → test_at func ≡ false
          → func ≡ 0
          → is_single (header_at bus slot func) ≡ false
          → find_func dev vendor_id device_id bus slot (suc left) func log
            ≡ find_func dev vendor_id device_id bus slot left (func + 1) (after_header func log)
      unfolding find_func read_config test_at after_header after_ids
      find_func-multi left func log e z s =
          let first : (func == 0) ≡ true = ground arith in
          rw
            (
              answers (address bus slot func 0) log,
              e,
              first,
              answers (address bus slot func 0x0C) (after_ids func log),
              s,
            )
            refl

      test_at-hit :
          (func : ℕ)
          → test_at func ≡ true
          → (func ≡ 0) ⊎ (is_single (header_at bus slot 0) ≡ false)
          → IsHitAt bus slot func
      unfolding test_at
      test_at-hit func e looked = (ground arith, ground arith, looked)

      test_at-miss : (func : ℕ) → test_at func ≡ false → ¬ IsHitAt bus slot func
      unfolding test_at
      test_at-miss func e hit = let v = hit.0 in let d = hit.1 in ground arith

      -- A device with one function has no hit behind function 0.
      single_no_hit :
          test_at 0 ≡ false → is_single (header_at bus slot 0) ≡ true → HasNoHit base (base + 8)
      single_no_hit e s k ge lt hit = elim (ℕ_discrete k base) [
        | yes same ↦
            let at_0 : k ≡ base + 0 = omega arith in
            test_at-miss 0 e (at_hit 0 (omega arith) (rw (← at_0) hit))
        | no other ↦
            let at_k : k ≡ base + (k - base) = omega arith in
            let (v, d, looked) = at_hit (k - base) (omega arith) (rw (← at_k) hit) in
            elim looked [ inl z ↦ absurd (omega arith) | inr m ↦ cc ]
      ]

      pub find_func-IsFirst :
          (left func : ℕ) (log : Log)
          → func + left ≡ 8
          → (func ≡ 0) ⊎ (is_single (header_at bus slot 0) ≡ false)
          → IsFirst
              (base + func)
              (base + 8)
              (find_func dev vendor_id device_id bus slot left func log).0
      find_func-IsFirst zero func log e looked =
          inr (λ k ge lt. absurd (omega arith), unfold find_func in refl)
      find_func-IsFirst (suc left) func log e looked = elim (Bool-cases (test_at func)) [
        | inl hit ↦ inl (
          base + func,
          omega arith,
          omega arith,
          IsHitAt-IsHit func (omega arith) (test_at-hit func hit looked),
          λ k ge lt. absurd (omega arith),
          find_func-found left func log hit ∙ ap some place_eq,
        )
        | inr miss ↦
            let go_on = IsFirst-join (base + func) (base + func + 1) (base + 8) in
            let here = no_hit_here func (omega arith) (test_at-miss func miss) in
            let next : base + (func + 1) ≡ base + func + 1 = omega arith in
            elim (ℕ_discrete func 0) [
              | yes z ↦ elim (Bool-cases (is_single (header_at bus slot func))) [
                | inl single ↦ inr (
                  let b0 : base + func ≡ base = omega arith in
                      rw b0 (single_no_hit (rw z at miss) (rw z at single)),
                  find_func-single left func log miss z single,
                )
                | inr multi ↦ rw (find_func-multi left func log miss z multi) (
                    go_on _ (omega arith) here (
                      rw (← next) (
                        find_func-IsFirst left (func + 1) (after_header func log) (omega arith)
                          (inr (rw z at multi)))))
              ]
              | no ne ↦ rw (find_func-next left func log miss ne) (
                  go_on _ (omega arith) here (
                    rw (← next) (
                      find_func-IsFirst left (func + 1) (after_ids func log) (omega arith)
                        (elim looked [ inl z ↦ absurd (ne z) | inr m ↦ inr m ]))))
            ]
      ]
        where
          place_eq : ◌≡◌ {A = Place} (u8 bus, u8 slot, u8 func) (place (base + func))
          place_eq = ground arith
