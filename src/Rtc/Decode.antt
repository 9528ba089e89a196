-- ===== src/Rtc/Decode.antt =====
-- The decoding of the clock's registers against their encodings.
use orbit_os.Base.{
  ℕ, ◌+◌, ◌-◌, ◌*◌, ◌/◌, ◌%◌, ◌<◌, ◌≡◌, refl, ◌∙◌, ap₂, not, arith, Bool, true, false, ◌&&◌,
}
use orbit_os.Base.{◌==◌, leb, if◌then◌else◌, u8, u16}
use orbit_os.Bits.{all_below, all_below_lem, bit_and-mask}
use orbit_os.Rtc.{
  RtcTime, Reading, from_bcd, from_bcd_hour, to_binary, to_24_hours, fix_year, decode,
}

-- Two decimal digits in a byte.
unfoldable pub bcd : ℕ → ℕ
bcd n = n / 10 * 16 + n % 10

from_bcd-bcd : (n : ℕ) → n < 100 → from_bcd (bcd n) ≡ n
unfolding from_bcd bcd
from_bcd-bcd n h = omega (arith, bit_and-mask 4 (n / 10 * 16 + n % 10))

-- The hour of a 12-hour clock: 12, 1, …, 11, and the top bit in the afternoon.
unfoldable pub twelve_hour : (ℕ → ℕ) → ℕ → ℕ
twelve_hour digits h = digits (if h % 12 == 0 then 12 else h % 12) + (if leb 12 h then 0x80 else 0)

-- The formats of register B: bit 1 for 24 hours, bit 2 for binary.
unfoldable pub register_b : Bool → Bool → ℕ
register_b binary twenty_four = (if twenty_four then 2 else 0) + (if binary then 4 else 0)

abbrev pub digits_of : Bool → ℕ → ℕ
digits_of binary n = if binary then n else bcd n

-- The registers of a time with the century `c` and the year `y` of the century.
unfoldable pub encode : Bool → Bool → RtcTime → ℕ → ℕ → Reading
encode binary twenty_four t c y = record {
  time = record {
    second = digits_of binary t.second;
    minute = digits_of binary t.minute;
    hour = if twenty_four then digits_of binary t.hour else twelve_hour (digits_of binary) t.hour;
    day = digits_of binary t.day;
    month = digits_of binary t.month;
    year = digits_of binary y;
  };
  century = digits_of binary c;
}

-- The hour that the code makes of an hour register.
abbrev decoded_hour : Bool → Bool → ℕ → ℕ
decoded_hour binary twenty_four hour =
    to_24_hours (register_b binary twenty_four) (if binary then hour else u8 (from_bcd_hour hour))

hour_table :
    all_below 24 (λ h.
      (decoded_hour true true h == h)
      && ((decoded_hour false true (bcd h) == h)
          && ((decoded_hour true false (twelve_hour (λ n. n) h)
                == (if h % 12 == 0 then 12 - h else h))
              && (decoded_hour false false (twelve_hour bcd h)
                  == (if h % 12 == 0 then 12 - h else h)))))
    ≡ true
unfolding all_below to_24_hours register_b from_bcd_hour bcd twelve_hour
hour_table = refl

hour_row :
    (h : ℕ)
    → h < 24
    → (decoded_hour true true h ≡ h)
      × (decoded_hour false true (bcd h) ≡ h)
      × (decoded_hour true false (twelve_hour (λ n. n) h) ≡ (if h % 12 == 0 then 12 - h else h))
      × (decoded_hour false false (twelve_hour bcd h) ≡ (if h % 12 == 0 then 12 - h else h))
hour_row h lt = ground (arith, all_below_lem 24 _ h hour_table lt)

-- The fields of a time, in the ranges that two digits hold.
pub record InRange (t : RtcTime) (c y : ℕ) : Type 0 where
  pub second_in : t.second < 100
  pub minute_in : t.minute < 100
  pub hour_in : t.hour < 24
  pub day_in : t.day < 100
  pub month_in : t.month < 100
  pub century_in : c < 100
  pub year_in : y < 100

-- The year that the century and the year of the century stand for; without a century the years
-- from 70 on are those of 1970 to 1999.
unfoldable pub full_year : ℕ → ℕ → ℕ
full_year c y = if c == 0 then (if leb 70 y then 1900 + y else 2000 + y) else c * 100 + y

u8-from_bcd : (n : ℕ) → n < 100 → u8 (from_bcd (bcd n)) ≡ n
u8-from_bcd n h = omega (arith, from_bcd-bcd n h)

u16-from_bcd : (n : ℕ) → n < 100 → u16 (from_bcd (bcd n)) ≡ n
u16-from_bcd n h = omega (arith, from_bcd-bcd n h)

fix_year-full_year : (c y : ℕ) → c < 100 → y < 100 → fix_year c y ≡ full_year c y
unfolding fix_year full_year
fix_year-full_year c y hc hy = ground arith

bcd_fields :
    (t : RtcTime) (c y : ℕ) {raw hour : ℕ}
    → InRange t c y
    → raw ≡ hour
    → ◌≡◌ {A = RtcTime}
        (record {
          second = u8 (from_bcd (bcd t.second));
          minute = u8 (from_bcd (bcd t.minute));
          hour = raw;
          day = u8 (from_bcd (bcd t.day));
          month = u8 (from_bcd (bcd t.month));
          year = fix_year (u8 (from_bcd (bcd c))) (u16 (from_bcd (bcd y)));
        })
        (record t { hour = hour; year = full_year c y })
bcd_fields t c y r e =
    let year_eq =
      ap₂ fix_year (u8-from_bcd c r.century_in) (u16-from_bcd y r.year_in)
      ∙ fix_year-full_year c y r.century_in r.year_in in
    λ i. record {
      second = u8-from_bcd t.second r.second_in i;
      minute = u8-from_bcd t.minute r.minute_in i;
      hour = e i;
      day = u8-from_bcd t.day r.day_in i;
      month = u8-from_bcd t.month r.month_in i;
      year = year_eq i;
    }

-- The decoding is right but for the hour, which is the one that `to_24_hours` gives.
decode_fields :
    (binary twenty_four : Bool) (t : RtcTime) (c y hour : ℕ)
    → InRange t c y
    → decoded_hour binary twenty_four
        (if twenty_four then digits_of binary t.hour else twelve_hour (digits_of binary) t.hour)
      ≡ hour
    → decode (register_b binary twenty_four) (encode binary twenty_four t c y)
      ≡ record t { hour = hour; year = full_year c y }
unfolding decode to_binary encode register_b
decode_fields true true t c y hour r e =
    λ i. record t { hour = e i; year = fix_year-full_year c y r.century_in r.year_in i }
decode_fields true false t c y hour r e =
    λ i. record t { hour = e i; year = fix_year-full_year c y r.century_in r.year_in i }
decode_fields false true t c y hour r e = bcd_fields t c y r e
decode_fields false false t c y hour r e = bcd_fields t c y r e

decoded_hour-encode :
    (binary twenty_four : Bool) (h : ℕ)
    → h < 24
    → decoded_hour binary twenty_four
        (if twenty_four then digits_of binary h else twelve_hour (digits_of binary) h)
      ≡ (if not twenty_four && h % 12 == 0 then 12 - h else h)
unfolding twelve_hour
decoded_hour-encode true true h lt = (hour_row h lt).0
decoded_hour-encode false true h lt = (hour_row h lt).1
decoded_hour-encode true false h lt = (hour_row h lt).2
decoded_hour-encode false false h lt = (hour_row h lt).3

-- For a time in range and each of the four formats of register B the decoding gives back the time that
-- the registers encode, with the full year, except that on a 12-hour clock noon is read as hour 0 and
-- midnight as hour 12.
pub decode-encode :
    (binary twenty_four : Bool) (t : RtcTime) (c y : ℕ)
    → InRange t c y
    → decode (register_b binary twenty_four) (encode binary twenty_four t c y) ≡ record t {
      hour = (if not twenty_four && t.hour % 12 == 0 then 12 - t.hour else t.hour);
      year = full_year c y;
    }
decode-encode binary twenty_four t c y r =
    decode_fields binary twenty_four t c y _ r
      (decoded_hour-encode binary twenty_four t.hour r.hour_in)
