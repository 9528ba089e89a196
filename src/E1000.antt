-- ===== src/E1000.antt =====
-- drivers/e1000.c: the network card, found on the PCI bus and read through its memory window. What a
-- register of the window answers is a parameter.
pub mod Window
use orbit_os.Base.{ℕ, ◌+◌, some, none, Bool, true}
use orbit_os.Base.{bit_and, u32, ◌>>◌, complement, if◌then◌else◌, ◌==◌, ltb}
use orbit_os.Pci.{Log, Device, Place, find_device, enable_bus_mastering, get_bar}
use orbit_os.Vmm.{Vmm, writable, map_all}

pub record E1000 : Type 0 where
  pub mmio_base : ℕ
  pub mac_addr : ℕ → ℕ
  pub found : Bool

abbrev pub vendor : ℕ
vendor = 0x8086

abbrev pub device : ℕ
device = 0x100E

-- `e1000_read_reg`; `window` is what a load from an address of the window gives.
unfoldable pub read_reg : (ℕ → ℕ) → ℕ → ℕ → ℕ
read_reg window mmio_base reg = u32 (window (u32 (mmio_base + reg)))

-- The six bytes from RAL and RAH; the array has no others.
unfoldable pub mac_bytes : ℕ → ℕ → (ℕ → ℕ) → ℕ → ℕ
mac_bytes ral rah old i =
    if i == 0
    then bit_and ral 0xFF
    else if i == 1
    then bit_and (ral >> 8) 0xFF
    else if i == 2
    then bit_and (ral >> 16) 0xFF
    else if i == 3
    then bit_and (ral >> 24) 0xFF
    else if i == 4
    then bit_and rah 0xFF
    else if i == 5
    then bit_and (rah >> 8) 0xFF
    else old i

-- What `e1000_initialize` does with the card at a place: the bus, the window's pages, the address. Paging
-- is on by then; a new table is written at its physical address, which is the code's write where the
-- table lies in the 16 MB that map to themselves.
unfoldable pub set_up : Device → (ℕ → ℕ) → Place → Log → Vmm → E1000 → Log × Vmm × E1000
unfolding mac_bytes
set_up dev window (bus, slot, func) log v e =
    let log1 = enable_bus_mastering dev bus slot func log in
    let (bar0, log2) = get_bar dev bus slot func 0 log1 in
    let phys_addr = bit_and bar0 (complement 0xF) in
    let ral = read_reg window phys_addr 0x5400 in
    let rah = read_reg window phys_addr 0x5404 in
    (
      log2,
      map_all 256 phys_addr 0 writable v,
      record { mmio_base = phys_addr; mac_addr = mac_bytes ral rah e.mac_addr; found = true },
    )

unfoldable pub initialize : Device → (ℕ → ℕ) → Log → Vmm → E1000 → Log × Vmm × E1000
unfolding set_up
initialize dev window log v e =
    let (place, log') = find_device dev vendor device log in
    elim place [ none ↦ (log', v, e) | some p ↦ set_up dev window p log' v e ]

-- `e1000_get_mac`: the six bytes into `mac`.
unfoldable pub get_mac : E1000 → (ℕ → ℕ) → ℕ → ℕ
get_mac e mac i = if ltb i 6 then e.mac_addr i else mac i

unfoldable pub is_found : E1000 → Bool
is_found e = e.found
