-- ===== src/Pci/Find.antt =====
-- `pci_find_device` over all slots and buses.
use orbit_os.Base.{ℕ, zero, suc, ◌+◌, ◌*◌, ◌≤◌, ◌<◌, ◌≡◌, refl, arith, inl, inr, Option, some, none}
use orbit_os.Pci.{Log, Device, Place, or_else, find_func, find_slot, find_bus, find_device}
use orbit_os.Pci.Search.{Answers, IsFirst, IsFirst-join, find_func-IsFirst}

module _ (config : ℕ → ℕ) (vendor_id device_id : ℕ) where
  -- A hit in the first part ends the search; without one it goes on in the second part.
  IsFirst-or_else :
      (lo mid hi : ℕ) (found : Option Place × Log) (rest : Log → Option Place × Log)
      → lo ≤ mid
      → mid ≤ hi
      → IsFirst config vendor_id device_id lo mid found.0
      → ((log : Log) → IsFirst config vendor_id device_id mid hi (rest log).0)
      → IsFirst config vendor_id device_id lo hi (or_else found rest).0
  unfolding or_else
  IsFirst-or_else lo mid hi (none, log) rest le le' (inl (k, ge, lt, hit, before, e)) then = cc
  IsFirst-or_else lo mid hi (none, log) rest le le' (inr (no_hit, e)) then =
      IsFirst-join config vendor_id device_id lo mid hi (rest log).0 le no_hit (then log)
  IsFirst-or_else lo mid hi (some p, log) rest le le' (inl (k, ge, lt, hit, before, e)) then =
      inl (k, ge, omega arith, hit, before, e)
  IsFirst-or_else lo mid hi (some p, log) rest le le' (inr (no_hit, e)) then = cc

  module _ (dev : Device) (answers : Answers dev config) where
    find_slot-IsFirst :
        (bus left slot : ℕ) (log : Log)
        → bus < 256
        → slot + left ≡ 32
        → IsFirst config vendor_id device_id
            ((bus * 32 + slot) * 8)
            ((bus * 32 + 32) * 8)
            (find_slot dev vendor_id device_id bus left slot log).0
    unfolding find_slot
    find_slot-IsFirst bus zero slot log hb e = inr (λ k ge lt. absurd (omega arith), refl)
    find_slot-IsFirst bus (suc left) slot log hb e =
        let base = (bus * 32 + slot) * 8 in
        let b0 : base + 0 ≡ base = omega arith in
        let b8 : base + 8 ≡ (bus * 32 + (slot + 1)) * 8 = omega arith in
        IsFirst-or_else base ((bus * 32 + (slot + 1)) * 8) ((bus * 32 + 32) * 8)
          (find_func dev vendor_id device_id bus slot 8 0 log)
          (find_slot dev vendor_id device_id bus left (slot + 1)) (omega arith) (omega arith)
          (rw (b0, b8) at
            (find_func-IsFirst config vendor_id device_id dev answers bus slot base hb (omega arith)
              refl 8 0 log (omega arith) (inl refl)))
          (λ log'. find_slot-IsFirst bus left (slot + 1) log' hb (omega arith))

    find_bus-IsFirst :
        (left bus : ℕ) (log : Log)
        → bus + left ≡ 256
        → IsFirst config vendor_id device_id
            (bus * 256)
            (256 * 256)
            (find_bus dev vendor_id device_id left bus log).0
    unfolding find_bus
    find_bus-IsFirst zero bus log e = inr (λ k ge lt. absurd (omega arith), refl)
    find_bus-IsFirst (suc left) bus log e =
        let b0 : (bus * 32 + 0) * 8 ≡ bus * 256 = omega arith in
        let b1 : (bus * 32 + 32) * 8 ≡ (bus + 1) * 256 = omega arith in
        IsFirst-or_else (bus * 256) ((bus + 1) * 256) (256 * 256)
          (find_slot dev vendor_id device_id bus 32 0 log)
          (find_bus dev vendor_id device_id left (bus + 1)) (omega arith) (omega arith)
          (rw (b0, b1) at (find_slot-IsFirst bus 32 0 log (omega arith) refl))
          (λ log'. find_bus-IsFirst left (bus + 1) log' (omega arith))

    -- On a configuration space that always answers the same, `pci_find_device` returns the first
    -- place, in the order of bus, slot and function, at which the device is and at which the code
    -- looks (function 0, and the others of a device with several functions), or reports that there
    -- is none.
    pub find_device-IsFirst :
        (log : Log)
        → IsFirst config vendor_id device_id 0 65536 (find_device dev vendor_id device_id log).0
    unfolding find_device
    find_device-IsFirst log = find_bus-IsFirst 256 0 log refl
