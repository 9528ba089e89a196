-- ===== src/Pci.antt =====
-- drivers/pci.c: the configuration space through the ports 0xCF8 and 0xCFC. The log holds the 32-bit
-- writes so far, the latest first; what `inl` reads is a function of it, the device.
pub mod Address
pub mod Search
pub mod Find
use orbit_os.Base.{ℕ, zero, suc, ◌+◌, ◌-◌, ◌*◌, ◌/◌, ◌%◌, ◌^◌, bit_and, bit_or, Option, some, none}
use orbit_os.Base.{◌==◌, ◌&&◌, not, if◌then◌else◌, u8, u16, u32, ◌>>◌, ◌<<◌, List, [], ◌∷◌, get_or}
use orbit_os.Base.{Bool, String, codes}
use orbit_os.Terminal.{Terminal, puts}

abbrev pub Log : Type 0
Log = List (ℕ × ℕ)

abbrev pub Device : Type 0
Device = Log → ℕ

abbrev pub outl : ℕ → ℕ → Log → Log
outl port val log = (port, u32 val) ∷ log

abbrev pub config_address : ℕ
config_address = 0xCF8

abbrev pub config_data : ℕ
config_data = 0xCFC

-- The address as the code builds it; the parameters are bytes.
unfoldable pub address : ℕ → ℕ → ℕ → ℕ → ℕ
address bus slot func offset = u32 (
    bit_or
      (bit_or (bit_or (bit_or (u8 bus << 16) (u8 slot << 11)) (u8 func << 8))
        (bit_and (u8 offset) 0xFC))
      0x80000000)

unfoldable pub read_config : Device → ℕ → ℕ → ℕ → ℕ → Log → ℕ × Log
read_config dev bus slot func offset log =
    let log' = outl config_address (address bus slot func offset) log in (u32 (dev log'), log')

unfoldable pub write_config : ℕ → ℕ → ℕ → ℕ → ℕ → Log → Log
write_config bus slot func offset value log =
    outl config_data value (outl config_address (address bus slot func offset) log)

-- Bus, slot and function.
abbrev pub Place : Type 0
Place = ℕ × ℕ × ℕ

abbrev pub vendor_of : ℕ → ℕ
vendor_of vendor_device = u16 (bit_and vendor_device 0xFFFF)

abbrev pub device_of : ℕ → ℕ
device_of vendor_device = u16 (vendor_device >> 16)

abbrev pub is_single : ℕ → Bool
is_single header_type = bit_and (header_type >> 16) 0x80 == 0

-- A place that was found is returned; otherwise the loop goes on.
unfoldable pub or_else : Option Place × Log → (Log → Option Place × Log) → Option Place × Log
or_else (none, log) rest = rest log
or_else (some place, log) rest = (some place, log)

module _ (dev : Device) (vendor_id device_id : ℕ) where
  -- The loop over the functions of a slot from `func` on, with its `break`.
  unfoldable pub find_func : ℕ → ℕ → ℕ → ℕ → Log → Option Place × Log
  find_func bus slot zero func log = (none, log)
  find_func bus slot (suc left) func log =
      let rest = find_func bus slot left (func + 1) in
      let (vendor_device, log1) = read_config dev bus slot func 0 log in
      let (header_type, log2) = read_config dev bus slot func 0x0C log1 in
      if vendor_of vendor_device == vendor_id && device_of vendor_device == device_id
      then (some (u8 bus, u8 slot, u8 func), log1)
      else if func == 0
      then (if is_single header_type then (none, log2) else rest log2)
      else rest log1

  unfoldable pub find_slot : ℕ → ℕ → ℕ → Log → Option Place × Log
  unfolding find_func or_else
  find_slot bus zero slot log = (none, log)
  find_slot bus (suc left) slot log =
      or_else (find_func bus slot 8 0 log) (find_slot bus left (slot + 1))

  unfoldable pub find_bus : ℕ → ℕ → Log → Option Place × Log
  unfolding find_slot
  find_bus zero bus log = (none, log)
  find_bus (suc left) bus log = or_else (find_slot bus 32 0 log) (find_bus left (bus + 1))

  unfoldable pub find_device : Log → Option Place × Log
  unfolding find_bus
  find_device log = find_bus 256 0 log

unfoldable pub get_bar : Device → ℕ → ℕ → ℕ → ℕ → Log → ℕ × Log
get_bar dev bus slot func bar_num log = read_config dev bus slot func (u8 (0x10 + bar_num * 4)) log

unfoldable pub enable_bus_mastering : Device → ℕ → ℕ → ℕ → Log → Log
enable_bus_mastering dev bus slot func log =
    let (command, log') = read_config dev bus slot func 0x04 log in
    write_config bus slot func 0x04 (bit_or command (1 << 2)) log'

-- `digits_str[num & 0x0F]`
unfoldable pub hex_char : ℕ → ℕ
hex_char n = get_or (codes "0123456789ABCDEF") n 0

-- The loop of `print_hex` from the last place down: what the buffer holds from place `digits` on.
unfoldable pub hex_from : ℕ → ℕ → List ℕ → List ℕ
hex_from zero num buf = buf
hex_from (suc digits) num buf = hex_from digits (num >> 4) (hex_char (bit_and num 0x0F) ∷ buf)

unfoldable pub print_hex : ℕ → ℕ → Terminal → Terminal
print_hex num digits t = puts (hex_from digits num []) t

abbrev pub print_text : String → Terminal → Terminal
print_text s t = puts (codes s) t

-- The line of a function of a device.
unfoldable pub print_line : ℕ → ℕ → ℕ → ℕ → ℕ → Terminal → Terminal
unfolding print_hex
print_line bus slot func vendor_device class_sub t =
    let place = print_text "    " (
      print_hex func 1
        (print_text "   " (print_hex slot 2 (print_text "   " (print_hex bus 2 t))))) in
    let ids = print_text "     " (
      print_hex (device_of vendor_device) 4
        (print_text "     " (print_hex (vendor_of vendor_device) 4 place))) in
    print_text "\n" (
      print_hex (u8 (bit_and (class_sub >> 16) 0xFF)) 2
        (print_text ":" (print_hex (u8 (class_sub >> 24)) 2 ids)))

module _ (dev : Device) where
  -- One function of a slot: whether the loop over the functions goes on.
  unfoldable pub list_func : ℕ → ℕ → ℕ → ℕ → Log → Terminal → Log × Terminal
  unfolding print_line
  list_func bus slot zero func log t = (log, t)
  list_func bus slot (suc left) func log t =
      let rest = list_func bus slot left (func + 1) in
      let (vendor_device, log1) = read_config dev bus slot func 0 log in
      let (class_sub, log2) = read_config dev bus slot func 0x08 log1 in
      let (header_type, log3) = read_config dev bus slot func 0x0C log2 in
      let t' = print_line bus slot func vendor_device class_sub t in
      if vendor_of vendor_device == 0xFFFF
      then rest log1 t
      else if func == 0
      then (if is_single header_type then (log3, t') else rest log3 t')
      else rest log2 t'

  unfoldable pub list_slots : ℕ → ℕ → ℕ → Log → Terminal → Log × Terminal
  unfolding list_func
  list_slots bus zero slot log t = (log, t)
  list_slots bus (suc left) slot log t =
      let (log', t') = list_func bus slot 8 0 log t in list_slots bus left (slot + 1) log' t'

  unfoldable pub list_buses : ℕ → ℕ → Log → Terminal → Log × Terminal
  unfolding list_slots
  list_buses zero bus log t = (log, t)
  list_buses (suc left) bus log t =
      let (log', t') = list_slots bus 32 0 log t in list_buses left (bus + 1) log' t'

  unfoldable pub enumerate : Log → Terminal → Log × Terminal
  unfolding list_buses
  enumerate log t = list_buses 256 0 log (
      print_text "------------------------------------------\n"
        (print_text "Bus  Slot Func Vendor   Device   Class\n" t))
