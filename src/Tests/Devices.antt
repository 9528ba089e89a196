-- ===== src/Tests/Devices.antt =====
-- The clock, the descriptor tables, the timer and the dispatch of interrupts.
use orbit_os.Base.{◌↔◌, ℕ}
use orbit_os.Idt.{absent}
use orbit_os.Isr.{install}
use orbit_os.Isr.Gates.{UserCallable, UserCallable-install}
use orbit_os.Base.{ℕ, ◌+◌, ◌-◌, ◌*◌, ◌/◌, ◌%◌, ◌^◌, ◌≡◌, ◌⊎◌, refl, arith, some, false}
use orbit_os.Base.{◌==◌, ◌&&◌, if◌then◌else◌, u8, not}
use orbit_os.Rtc.{RtcTime, get_time, decode}
use orbit_os.Rtc.Stable.{changing, registers, get_time-registers}
use orbit_os.Rtc.Decode.{InRange, register_b, encode, full_year, decode-encode}
use orbit_os.Gdt
use orbit_os.Gdt.Encoding.{segment_base, segment_limit, segment_flags, privilege, gate-fields}
use orbit_os.Idt
use orbit_os.Idt.{Idt}
use orbit_os.Isr.{Stubs}

-- Half past noon.
abbrev half_past_noon : RtcTime
half_past_noon = record { second = 5; minute = 30; hour = 12; day = 24; month = 12; year = 0 }

half_past_noon-InRange : InRange half_past_noon 20 26
half_past_noon-InRange = omega arith

decode-encode_example :
    decode (register_b false false) (encode false false half_past_noon 20 26)
    ≡ record half_past_noon {
      hour = (if not false && 12 % 12 == 0 then 12 - 12 else 12);
      year = full_year 20 26;
    }
decode-encode_example = decode-encode false false half_past_noon 20 26 half_past_noon-InRange

abbrev chip : ℕ → ℕ
chip reg = if reg == 0x0B then 2 else 0

-- A minute later.
abbrev chip_later : ℕ → ℕ
chip_later reg = if reg == 0x02 then 1 else chip reg

-- The minute changes in the middle of the second reading.
get_time-registers_example :
    (get_time 1 3 (changing chip chip_later 11) 0
      ≡ some (decode (u8 (chip_later 0x0B)) (registers chip)))
    ⊎ (get_time 1 3 (changing chip chip_later 11) 0
        ≡ some (decode (u8 (chip_later 0x0B)) (registers chip_later)))
get_time-registers_example = get_time-registers chip chip_later 11 refl refl 0 0 0 refl

gate-fields_example :
    (segment_base (Gdt.gate 0x12345678 0xFFFFFFFF 0xFA 0xCF) ≡ 0x12345678)
    × (segment_limit (Gdt.gate 0x12345678 0xFFFFFFFF 0xFA 0xCF) ≡ 0xFFFFFFFF % 2 ^ 20)
    × (segment_flags (Gdt.gate 0x12345678 0xFFFFFFFF 0xFA 0xCF) ≡ 0xCF / 16)
    × (privilege (Gdt.gate 0x12345678 0xFFFFFFFF 0xFA 0xCF) ≡ 0xFA / 32 % 4)
gate-fields_example =
    gate-fields 0x12345678 0xFFFFFFFF 0xFA 0xCF (omega arith) (omega arith) (omega arith)

abbrev stubs : Stubs
stubs = record { isr = λ n. 0x100000 + 16 * n; irq = λ n. 0x101000 + 16 * n; isr128 = 0x102000 }

abbrev table : Idt
table = record { entries = λ n. Idt.absent; ptr_limit = 0; ptr_base = 0 }

UserCallable-install_example :
    UserCallable ((install stubs (Idt.initialize 0x5000 table)).entries 33) ↔ (◌≡◌ {A = ℕ} 33 128)
UserCallable-install_example = UserCallable-install stubs 0x5000 table 33 (omega arith)
