-- ===== src/Rtc/Stable.antt =====
-- The loops of `rtc_get_time` on a clock that changes while it is read.
use orbit_os.Base.{ℕ, suc, ◌+◌, ◌≤◌, ◌≡◌, ◌⊎◌, ◌∙◌, refl, arith, ap, ap₂, sym, false, inl, inr}
use orbit_os.Base.{some, Option, bit_and, u8, ltb, if◌then◌else◌, Bool-cases, true}
use native.Mathlib.Decide.{dec_lt}
use orbit_os.Rtc.{Reading, Device, read_time, differs, read_stable, wait_update, get_time, decode}
use orbit_os.Rtc.{get_rtc_register, get_update_in_progress_flag}

-- The chip goes on from one state of its registers to the next before its read number `since`.
abbrev pub changing : (ℕ → ℕ) → (ℕ → ℕ) → ℕ → Device
changing old new since n reg = if ltb n since then old reg else new reg

-- The bytes of the chip's time registers, and of register 0x32, the century.
abbrev pub registers : (ℕ → ℕ) → Reading
registers chip = record {
  time = record {
    second = u8 (chip 0x00);
    minute = u8 (chip 0x02);
    hour = u8 (chip 0x04);
    day = u8 (chip 0x07);
    month = u8 (chip 0x08);
    year = u8 (chip 0x09);
  };
  century = u8 (chip 0x32);
}

differs_same : (r s : Reading) → differs r s ≡ false → r ≡ s
unfolding differs
differs_same r s e =
    let second_same : r.time.second ≡ s.time.second = ground (arith, e) in
    let minute_same : r.time.minute ≡ s.time.minute = ground (arith, e) in
    let hour_same : r.time.hour ≡ s.time.hour = ground (arith, e) in
    let day_same : r.time.day ≡ s.time.day = ground (arith, e) in
    let month_same : r.time.month ≡ s.time.month = ground (arith, e) in
    let year_same : r.time.year ≡ s.time.year = ground (arith, e) in
    let century_same : r.century ≡ s.century = ground (arith, e) in
    λ i. record {
      time = record {
        second = second_same i;
        minute = minute_same i;
        hour = hour_same i;
        day = day_same i;
        month = month_same i;
        year = year_same i;
      };
      century = century_same i;
    }

differs_self : (r : Reading) → differs r r ≡ false
unfolding differs
differs_self r = ground arith

module _ (old new : ℕ → ℕ) (since : ℕ) (settled : bit_and (u8 (old 0x0A)) 0x80 ≡ 0)
    (settled' : bit_and (u8 (new 0x0A)) 0x80 ≡ 0) where
  abbrev clock : Device
  clock = changing old new since

  -- A reading that is over before the change.
  read_time-old : (n : ℕ) → n + 7 ≤ since → read_time clock n ≡ registers old
  unfolding read_time get_rtc_register
  read_time-old n h =
      let t0 : ltb n since ≡ true = ground (arith, h) in
      let t1 : ltb (n + 1) since ≡ true = ground (arith, h) in
      let t2 : ltb (n + 2) since ≡ true = ground (arith, h) in
      let t3 : ltb (n + 3) since ≡ true = ground (arith, h) in
      let t4 : ltb (n + 4) since ≡ true = ground (arith, h) in
      let t5 : ltb (n + 5) since ≡ true = ground (arith, h) in
      let t6 : ltb (n + 6) since ≡ true = ground (arith, h) in rw (t0, t1, t2, t3, t4, t5, t6) refl

  read_time-new : (n : ℕ) → since ≤ n → read_time clock n ≡ registers new
  unfolding read_time get_rtc_register
  read_time-new n h =
      let t0 : ltb n since ≡ false = ground (arith, h) in
      let t1 : ltb (n + 1) since ≡ false = ground (arith, h) in
      let t2 : ltb (n + 2) since ≡ false = ground (arith, h) in
      let t3 : ltb (n + 3) since ≡ false = ground (arith, h) in
      let t4 : ltb (n + 4) since ≡ false = ground (arith, h) in
      let t5 : ltb (n + 5) since ≡ false = ground (arith, h) in
      let t6 : ltb (n + 6) since ≡ false = ground (arith, h) in rw (t0, t1, t2, t3, t4, t5, t6) refl

  wait_update-settled : (fuel n : ℕ) → wait_update (suc fuel) clock n ≡ some (n + 1)
  unfolding wait_update get_update_in_progress_flag get_rtc_register
  wait_update-settled fuel n = elim (dec_lt n since) [
    | yes h ↦ let early : ltb n since ≡ true = ground (arith, h) in rw (early, settled) refl
    | no h ↦ let late : ltb n since ≡ false = ground (arith, h) in rw (late, settled') refl
  ]

  -- A reading that is one of the two states of the clock.
  abbrev IsOne : Reading → Type 0
  IsOne r = (r ≡ registers old) ⊎ (r ≡ registers new)

  abbrev Settles : Option (Reading × ℕ) → Type 0
  Settles o = (r : Reading) × (n : ℕ) × (o ≡ some (r, n)) × IsOne r

  -- One round of the loop.
  read_stable-ends :
      (wait_fuel fuel n : ℕ) (last : Reading)
      → differs last (read_time clock (n + 1)) ≡ false
      → IsOne (read_time clock (n + 1))
      → Settles (read_stable (suc wait_fuel) (suc fuel) clock last n)
  unfolding read_stable
  read_stable-ends wait_fuel fuel n last same one =
      (read_time clock (n + 1), n + 1 + 7, rw (wait_update-settled wait_fuel n, same) refl, one)

  read_stable-goes_on :
      (wait_fuel fuel n : ℕ) (last : Reading)
      → differs last (read_time clock (n + 1)) ≡ true
      → Settles (read_stable (suc wait_fuel) fuel clock (read_time clock (n + 1)) (n + 1 + 7))
      → Settles (read_stable (suc wait_fuel) (suc fuel) clock last n)
  unfolding read_stable
  read_stable-goes_on wait_fuel fuel n last other later =
      rw (wait_update-settled wait_fuel n, other) later

  -- Where the last reading is as new as the clock gets.
  read_stable-new :
      (wait_fuel fuel i n : ℕ)
      → since ≤ i
      → i + 7 ≤ n
      → Settles (read_stable (suc wait_fuel) (suc fuel) clock (read_time clock i) n)
  read_stable-new wait_fuel fuel i n h le =
      let now = read_time-new (n + 1) (omega arith) in
      let last = read_time-new i h in
      read_stable-ends wait_fuel fuel n (read_time clock i)
        (ap₂ differs last now ∙ differs_self (registers new)) (inr now)

  -- Where the next reading is.
  read_stable-soon :
      (wait_fuel fuel n : ℕ) (last : Reading)
      → since ≤ n + 1
      → Settles (read_stable (suc wait_fuel) (suc (suc fuel)) clock last n)
  read_stable-soon wait_fuel fuel n last h =
      elim (Bool-cases (differs last (read_time clock (n + 1)))) [
        | inl other ↦
            read_stable-goes_on wait_fuel (suc fuel) n last other
              (read_stable-new wait_fuel fuel (n + 1) (n + 1 + 7) h (omega arith))
        | inr same ↦
            read_stable-ends wait_fuel (suc fuel) n last same (inr (read_time-new (n + 1) h))
      ]

  read_stable-Settles :
      (wait_fuel fuel i n : ℕ)
      → i + 7 ≤ n
      → Settles (read_stable (suc wait_fuel) (suc (suc (suc fuel))) clock (read_time clock i) n)
  read_stable-Settles wait_fuel fuel i n le = elim (dec_lt (n + 1) since) [
    | no h ↦ read_stable-soon wait_fuel (suc fuel) n (read_time clock i) (omega arith)
    | yes h ↦
        let last = read_time-old i (omega arith) in
        elim (Bool-cases (differs (read_time clock i) (read_time clock (n + 1)))) [
          | inr same ↦
              read_stable-ends wait_fuel (suc (suc fuel)) n (read_time clock i) same
                (inl (sym (differs_same (read_time clock i) (read_time clock (n + 1)) same) ∙ last))
          | inl other ↦ read_stable-goes_on wait_fuel (suc (suc fuel)) n (read_time clock i) other (
              read_stable-soon wait_fuel fuel (n + 1 + 7) (read_time clock (n + 1))
                (changed n other last))
        ]
  ]
    where
      changed :
          (n : ℕ)
          → differs (read_time clock i) (read_time clock (n + 1)) ≡ true
          → read_time clock i ≡ registers old
          → since ≤ n + 1 + 7 + 1
      changed n other last = elim (dec_lt (n + 1 + 7) since) [
        | no h ↦ omega arith
        | yes h ↦
            let same =
              ap₂ differs last (read_time-old (n + 1) (omega arith))
              ∙ differs_self (registers old) in
            absurd (cc (other, same))
      ]

  register_b-same :
      (m : ℕ) → u8 (old 0x0B) ≡ u8 (new 0x0B) → get_rtc_register clock 0x0B m ≡ u8 (new 0x0B)
  unfolding get_rtc_register
  register_b-same m format = elim (dec_lt m since) [
    | yes h ↦ let early : ltb m since ≡ true = ground (arith, h) in rw early format
    | no h ↦ let late : ltb m since ≡ false = ground (arith, h) in rw late refl
  ]

  -- `rtc_get_time` on a clock with no update in progress, which changes at most once, at any moment
  -- of the reading, and keeps its format: with fuel for one wait and three rounds it ends, and the
  -- result is decoded from registers 0, 2, 4, 7, 8, 9 and 0x32 as they were before the change, all of
  -- them, or as they were after it, never from some of each.
  pub get_time-registers :
      (wait_fuel fuel n : ℕ)
      → u8 (old 0x0B) ≡ u8 (new 0x0B)
      → (get_time (suc wait_fuel) (suc (suc (suc fuel))) clock n
          ≡ some (decode (u8 (new 0x0B)) (registers old)))
        ⊎ (get_time (suc wait_fuel) (suc (suc (suc fuel))) clock n
            ≡ some (decode (u8 (new 0x0B)) (registers new)))
  unfolding get_time
  get_time-registers wait_fuel fuel n format =
      let (r, m, runs, one) =
        read_stable-Settles wait_fuel fuel (n + 1) (n + 1 + 7) (omega arith) in
      rw (wait_update-settled wait_fuel n, runs, register_b-same m format)
        (elim one [
          | inl e ↦ inl (ap (λ t. some (decode (u8 (new 0x0B)) t)) e)
          | inr e ↦ inr (ap (λ t. some (decode (u8 (new 0x0B)) t)) e)
        ])
