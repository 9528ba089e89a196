-- ===== src/Rtc.antt =====
-- drivers/rtc.c: reading the CMOS clock. What the chip answers is a parameter: `device n reg` is
-- the byte that the `n`-th read gives if it selects the register `reg`. The count of reads done
-- is passed along.
pub mod Stable
pub mod Decode
use orbit_os.Base.{ℕ, zero, suc, ◌+◌, ◌*◌, ◌/◌, ◌%◌, ◌^◌, Bool, true, false, ◌&&◌, ◌||◌, not}
use orbit_os.Base.{Option, none, some, ◌>>=◌, ◌==◌, ltb, if◌then◌else◌, bit_and, bit_or, u8, u16}

-- `struct rtc_time`
pub record RtcTime : Type 0 where
  pub second : ℕ
  pub minute : ℕ
  pub hour : ℕ
  pub day : ℕ
  pub month : ℕ
  pub year : ℕ

-- The registers of one reading: the time and the century.
pub record Reading : Type 0 where
  pub time : RtcTime
  pub century : ℕ

abbrev pub Device : Type 0
Device = ℕ → ℕ → ℕ

unfoldable pub get_rtc_register : Device → ℕ → ℕ → ℕ
get_rtc_register device reg n = u8 (device n reg)

unfoldable pub get_update_in_progress_flag : Device → ℕ → ℕ
get_update_in_progress_flag device n = bit_and (get_rtc_register device 0x0A n) 0x80

-- `while (get_update_in_progress_flag());`: the count of reads after the loop.
unfoldable pub wait_update : ℕ → Device → ℕ → Option ℕ
wait_update zero device n = none
wait_update (suc fuel) device n =
    let rest = wait_update fuel device (n + 1) in
    if get_update_in_progress_flag device n == 0 then some (n + 1) else rest

-- The seven reads of one reading, from the `n`-th on.
unfoldable pub read_time : Device → ℕ → Reading
read_time device n = record {
  time = record {
    second = get_rtc_register device 0x00 n;
    minute = get_rtc_register device 0x02 (n + 1);
    hour = get_rtc_register device 0x04 (n + 2);
    day = get_rtc_register device 0x07 (n + 3);
    month = get_rtc_register device 0x08 (n + 4);
    year = get_rtc_register device 0x09 (n + 5);
  };
  century = get_rtc_register device 0x32 (n + 6);
}

-- The condition of the `do … while` loop.
unfoldable pub differs : Reading → Reading → Bool
differs last now =
    not (last.time.second == now.time.second)
    || (not (last.time.minute == now.time.minute)
        || (not (last.time.hour == now.time.hour)
            || (not (last.time.day == now.time.day)
                || (not (last.time.month == now.time.month)
                    || (not (last.time.year == now.time.year)
                        || not (last.century == now.century))))))

-- The `do … while` loop, with the reading before it: the last reading and the count of reads.
unfoldable pub read_stable : ℕ → ℕ → Device → Reading → ℕ → Option (Reading × ℕ)
read_stable wait_fuel zero device last n = none
read_stable wait_fuel (suc fuel) device last n = do
  n' ← wait_update wait_fuel device n
  let now = read_time device n'
  let rest = read_stable wait_fuel fuel device now (n' + 7)
  if differs last now then rest else some (now, n' + 7)

-- `(x & 0x0F) + ((x / 16) * 10)`
unfoldable pub from_bcd : ℕ → ℕ
from_bcd x = bit_and x 0x0F + x / 16 * 10

unfoldable pub from_bcd_hour : ℕ → ℕ
from_bcd_hour x = bit_or (bit_and x 0x0F + bit_and x 0x70 / 16 * 10) (bit_and x 0x80)

-- `if (!(registerB & 0x04))`: the registers are in BCD. Each field is a byte again.
unfoldable pub to_binary : ℕ → Reading → Reading
to_binary register_b r =
    if bit_and register_b 0x04 == 0
    then record {
      time = record {
        second = u8 (from_bcd r.time.second);
        minute = u8 (from_bcd r.time.minute);
        hour = u8 (from_bcd_hour r.time.hour);
        day = u8 (from_bcd r.time.day);
        month = u8 (from_bcd r.time.month);
        year = u16 (from_bcd r.time.year);
      };
      century = u8 (from_bcd r.century);
    }
    else r

-- `if (!(registerB & 0x02) && (time->hour & 0x80))`: the 12-hour clock, afternoon.
unfoldable pub to_24_hours : ℕ → ℕ → ℕ
to_24_hours register_b hour =
    if bit_and register_b 0x02 == 0 && not (bit_and hour 0x80 == 0)
    then u8 ((bit_and hour 0x7F + 12) % 24)
    else hour

-- "Fix year"
unfoldable pub fix_year : ℕ → ℕ → ℕ
fix_year century year =
    if not (century == 0)
    then u16 (year + century * 100)
    else u16 (year + (if ltb 69 year then 1900 else 2000))

-- What `rtc_get_time` makes of the last reading and of register B.
unfoldable pub decode : ℕ → Reading → RtcTime
decode register_b raw =
    let r = to_binary register_b raw in
    record (r.time) {
      hour = to_24_hours register_b r.time.hour;
      year = fix_year r.century r.time.year;
    }

unfoldable pub get_time : ℕ → ℕ → Device → ℕ → Option RtcTime
get_time wait_fuel fuel device n = do
  n' ← wait_update wait_fuel device n
  (reading, n'') ← read_stable wait_fuel fuel device (read_time device n') (n' + 7)
  some (decode (get_rtc_register device 0x0B n'') reading)
