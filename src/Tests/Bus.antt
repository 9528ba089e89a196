-- ===== src/Tests/Bus.antt =====
-- A bus on which only slot 3 answers, with the network card.
use orbit_os.Base.{ℕ, refl, ◌==◌, if◌then◌else◌, [], ◌∷◌, u32}
use orbit_os.Pci.{Device, find_device}
use orbit_os.Pci.Search.{Answers, IsFirst}
use orbit_os.Pci.Find.{find_device-IsFirst}
use orbit_os.E1000

abbrev answer : ℕ → ℕ
answer a = if a == 0x80001800 then 0x100E8086 else 0xFFFFFFFF

abbrev config : ℕ → ℕ
config a = u32 (answer (u32 a))

abbrev bus : Device
bus [] = 0
bus ((port, a) ∷ log) = answer a

bus-Answers : Answers bus config
bus-Answers a log = refl

find_device-IsFirst_example :
    IsFirst config E1000.vendor E1000.device 0 65536
      (find_device bus E1000.vendor E1000.device []).0
find_device-IsFirst_example =
    find_device-IsFirst config E1000.vendor E1000.device bus bus-Answers []
