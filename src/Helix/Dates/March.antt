-- ===== src/Helix/Dates/March.antt =====
-- The arithmetic of `days_from_civil` without its wrap-around, over years that begin in March.
use twitch_bot.Prelude.{
  ℕ, ◌+◌, ◌-◌, ◌*◌, ◌/◌, ◌%◌, ◌<◌, ◌≤◌, ◌≡◌, refl, ltb, leb, arith, if◌then◌else◌,
}
use twitch_bot.Helix.Dates.{era_of, days_from_civil}

-- Days from 0000-03-01 on, of the date `d` behind the first `doy` days of a year that begins in March.
unfoldable pub march_days : ℕ → ℕ → ℕ
march_days y doy = y * 365 + y / 4 + y / 400 + doy - y / 100

-- The day of a year that begins in March, for the month `m` of the calendar.
abbrev pub march_month : ℕ → ℕ
march_month m = if ltb 2 m then m - 3 else m + 9

abbrev pub march_year : ℕ → ℕ → ℕ
march_year y m = if leb m 2 then y - 1 else y

march_year-unwrapped :
    (y m : ℕ)
    → 1 ≤ y
    → y < 2147483648
    → (y + (if leb m 2 then 18446744073709551615 else 0)) % 18446744073709551616 ≡ march_year y m
march_year-unwrapped y m y1 y2 = ground (arith, y1, y2)

march_month-unwrapped :
    (m : ℕ)
    → 1 ≤ m
    → m ≤ 12
    → (m + (if ltb 2 m then 4294967293 else 9)) % 4294967296 ≡ march_month m
march_month-unwrapped m m1 m2 = ground (arith, m1, m2)

march_month-bound : (m : ℕ) → 1 ≤ m → m ≤ 12 → march_month m ≤ 11
march_month-bound m m1 m2 = ground (arith, m1, m2)

era-unwrapped : (y : ℕ) → y < 2147483648 → era_of y ≡ y / 400
unfolding era_of
era-unwrapped y h = ground (arith, h)

yoe-unwrapped :
    (y : ℕ)
    → y < 2147483648
    → (y + (18446744073709551616 - (y / 400 * 400) % 18446744073709551616)) % 4294967296 ≡ y % 400
yoe-unwrapped y h = omega (arith, h)

doy-unwrapped :
    (k d : ℕ)
    → k ≤ 11
    → 1 ≤ d
    → d ≤ 31
    → (((153 * k + 2) % 4294967296) / 5 + d + 4294967295) % 4294967296 ≡ (153 * k + 2) / 5 + d - 1
doy-unwrapped k d h d1 d2 = omega (arith, h, d1, d2)

doe-unwrapped :
    (yoe doy : ℕ)
    → yoe < 400
    → doy ≤ 400
    → (yoe * 365 + yoe / 4 + (4294967296 - yoe / 100) + doy) % 4294967296
      ≡ yoe * 365 + yoe / 4 + doy - yoe / 100
doe-unwrapped yoe doy h d = omega (arith, h, d)

march_days-eras :
    (y doy : ℕ)
    → y / 400 * 146097 + (y % 400 * 365 + y % 400 / 4 + doy - y % 400 / 100) ≡ march_days y doy
unfolding march_days
march_days-eras y doy = omega arith

doy-bound : (k d : ℕ) → k ≤ 11 → d ≤ 31 → (153 * k + 2) / 5 + d - 1 ≤ 400
doy-bound k d h d2 = omega (arith, h, d2)

march_year-bound : (y m : ℕ) → y < 2147483648 → march_year y m < 2147483648
march_year-bound y m h = ground (arith, h)

-- Without overflow, the number of days from 0000-03-01 on, less 719468.
pub days_from_civil-march :
    (y m d : ℕ)
    → 1 ≤ y
    → y < 2147483648
    → 1 ≤ m
    → m ≤ 12
    → 1 ≤ d
    → d ≤ 31
    → days_from_civil y m d
      ≡ (march_days (march_year y m) ((153 * march_month m + 2) / 5 + d - 1) + 18446744073708832148)
        % 18446744073709551616
unfolding days_from_civil
days_from_civil-march y m d y1 y2 m1 m2 d1 d2 =
    let u : ℕ = march_year y m in
    let k : ℕ = march_month m in
    let small = march_year-bound y m y2 in
    let kb = march_month-bound m m1 m2 in
    let doy : ℕ = (153 * k + 2) / 5 + d - 1 in
    rw
      (
        days_from_civil,
        march_year-unwrapped y m y1 y2,
        march_month-unwrapped m m1 m2,
        era-unwrapped u small,
        yoe-unwrapped u small,
        doy-unwrapped k d kb d1 d2,
        doe-unwrapped (u % 400) doy (omega arith) (doy-bound k d kb d2),
        march_days-eras u doy,
      )
      refl
