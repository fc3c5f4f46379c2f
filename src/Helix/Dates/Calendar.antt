-- ===== src/Helix/Dates/Calendar.antt =====
-- The day numbers of `days_from_civil` count the days of the Gregorian calendar.
use twitch_bot.Prelude.{
  ℕ, zero, suc, ◌+◌, ◌-◌, ◌*◌, ◌/◌, ◌%◌, ◌<◌, ◌≤◌, ◌≡◌, refl, sym, ap, subst, ◌∙◌, Bool, true,
  false, ◌||◌, ◌&&◌, not, inl, inr, ltb, ◌==◌, arith, if◌then◌else◌, Bool-cases,
}
use twitch_bot.Helix.Dates.{days_from_civil}
use twitch_bot.Helix.Dates.March.{march_days, march_month, march_year, days_from_civil-march}

abbrev pub is_leap : ℕ → Bool
is_leap y = y % 4 == 0 && (not (y % 100 == 0) || y % 400 == 0)

abbrev pub month_length : ℕ → ℕ → ℕ
month_length y m =
    if m == 2
    then (if is_leap y then 29 else 28)
    else if m == 4 || m == 6 || m == 9 || m == 11
    then 30
    else 31

month_end :
    (k : ℕ)
    → k ≤ 10
    → (153 * k + 2) / 5 + (if k == 1 || k == 3 || k == 6 || k == 8 then 30 else 31)
      ≡ (153 * (k + 1) + 2) / 5
month_end k h = ground (arith, h)

february_end :
    (y : ℕ) → 1 ≤ y → march_days y 0 ≡ march_days (y - 1) (337 + (if is_leap y then 29 else 28))
unfolding march_days
february_end y h = ground (arith, h)

-- From one day of a year that begins in March to the next.
march_days-suc : (y doy : ℕ) → march_days y (doy + 1) ≡ march_days y doy + 1
unfolding march_days
march_days-suc y doy = omega arith

pub record Date : Type 0 where
  pub year : ℕ
  pub month : ℕ
  pub day : ℕ

pub record IsDate (t : Date) : Type 0 where
  pub year_first : 1 ≤ t.year
  pub year_last : t.year < 2147483647
  pub month_first : 1 ≤ t.month
  pub month_last : t.month ≤ 12
  pub day_first : 1 ≤ t.day
  pub day_last : t.day ≤ month_length t.year t.month

abbrev pub next_day : Date → Date
next_day t =
    if ltb t.day (month_length t.year t.month)
    then record t { day = t.day + 1 }
    else if t.month == 12
    then record { year = t.year + 1; month = 1; day = 1 }
    else record t { month = t.month + 1; day = 1 }

abbrev march_date : ℕ → ℕ → ℕ → ℕ
march_date y m d = march_days (march_year y m) ((153 * march_month m + 2) / 5 + d - 1)

length-march :
    (y m : ℕ)
    → 1 ≤ m
    → m ≤ 12
    → (m == 2) ≡ false
    → month_length y m ≡ (
        if march_month m == 1 || march_month m == 3 || march_month m == 6 || march_month m == 8
        then 30
        else 31)
length-march y m m1 m2 other = ground (arith, m1, m2, other)

same_month : (y m d : ℕ) → 1 ≤ d → march_date y m (d + 1) ≡ march_date y m d + 1
same_month y m d h =
    ap (march_days (march_year y m)) {x = (153 * march_month m + 2) / 5 + (d + 1) - 1}
      {y = ((153 * march_month m + 2) / 5 + d - 1) + 1} (omega (arith, h))
    ∙ march_days-suc (march_year y m) ((153 * march_month m + 2) / 5 + d - 1)

-- From the last day of a month to the first of the next, in the same year from March on.
next_month :
    (y m z n : ℕ)
    → 1 ≤ m
    → m ≤ 12
    → (m == 2) ≡ false
    → march_month n ≡ march_month m + 1
    → march_year z n ≡ march_year y m
    → march_month m ≤ 10
    → march_date z n 1 ≡ march_date y m (month_length y m) + 1
next_month y m z n m1 m2 other k_next same_year k_last =
    let ends = month_end (march_month m) k_last in
    let len = length-march y m m1 m2 other in
    ap (march_days (march_year z n)) {x = (153 * march_month n + 2) / 5 + 1 - 1}
      {y = ((153 * march_month m + 2) / 5 + month_length y m - 1) + 1}
      (omega (arith, k_next, ends, len, ap (λ k. (153 * k + 2) / 5) k_next))
    ∙ ap (λ u. march_days u (((153 * march_month m + 2) / 5 + month_length y m - 1) + 1)) same_year
    ∙ march_days-suc (march_year y m) ((153 * march_month m + 2) / 5 + month_length y m - 1)

month_length_two : (y : ℕ) → 28 ≤ month_length y 2
month_length_two y = elim (Bool-cases (is_leap y)) [
  | inl leap ↦ rw (leap, if◌then◌else◌) (omega arith)
  | inr plain ↦ rw (plain, if◌then◌else◌) (omega arith)
]

february_days :
    (y : ℕ)
    → 28 ≤ month_length y 2
    → march_days (y - 1) (337 + month_length y 2) ≡ march_date y 2 (month_length y 2) + 1
february_days y long =
    ap (march_days (y - 1)) {x = 337 + month_length y 2} {y = (337 + month_length y 2 - 1) + 1}
      (omega (arith, long))
    ∙ march_days-suc (y - 1) (337 + month_length y 2 - 1)

february : (y : ℕ) → 1 ≤ y → march_date y 3 1 ≡ march_date y 2 (month_length y 2) + 1
february y h = february_end y h ∙ february_days y (month_length_two y)

date_number : Date → ℕ
date_number t = march_date t.year t.month t.day

inside_month :
    (t : Date)
    → ltb t.day (month_length t.year t.month) ≡ true
    → next_day t ≡ record t { day = t.day + 1 }
inside_month t h = rw (h, if◌then◌else◌) refl

after_month :
    (t : Date)
    → ltb t.day (month_length t.year t.month) ≡ false
    → next_day t ≡ (
        if t.month == 12
        then record { year = t.year + 1; month = 1; day = 1 }
        else record t { month = t.month + 1; day = 1 })
after_month t h = rw (h, if◌then◌else◌) refl

month_number :
    (t : Date)
    → IsDate t
    → (t.month == 12) ≡ false
    → (t.month == 2) ≡ false
    → (march_month (t.month + 1) ≡ march_month t.month + 1)
      × ((march_month t.month ≤ 10) × (march_year t.year (t.month + 1) ≡ march_year t.year t.month))
month_number t ok n12 n2 =
    let a = ok.month_first in let b = ok.month_last in ground (arith, n12, n2, a, b)

month_behind :
    (t : Date)
    → IsDate t
    → date_number (
        if t.month == 12
        then record { year = t.year + 1; month = 1; day = 1 }
        else record t { month = t.month + 1; day = 1 })
      ≡ march_date t.year t.month (month_length t.year t.month) + 1
unfolding date_number
month_behind t ok = elim (Bool-cases (t.month == 12)) [
  | inl december ↦
      rw (december, if◌then◌else◌)
        (subst {A = ℕ}
          (λ m. march_date (t.year + 1) 1 1 ≡ march_date t.year m (month_length t.year m) + 1)
          (sym (equal_of t.month 12 december))
          (next_month t.year 12 (t.year + 1) 1 (omega arith) (omega arith) refl refl (omega arith)
            (omega arith)))
  | inr earlier ↦
      rw (earlier, if◌then◌else◌)
        (elim (Bool-cases (t.month == 2)) [
          | inl is_february ↦
              subst {A = ℕ}
                (λ m. march_date t.year (m + 1) 1 ≡ march_date t.year m (month_length t.year m) + 1)
                (sym (equal_of t.month 2 is_february)) (february t.year ok.year_first)
          | inr other ↦
              let k = month_number t ok earlier other in
              next_month t.year t.month t.year (t.month + 1) ok.month_first ok.month_last other k.0
                k.1.1 k.1.0
        ])
]
  where
    equal_of : (a b : ℕ) → (a == b) ≡ true → a ≡ b
    equal_of a b h = ground (arith, h)

date_number-next_day : (t : Date) → IsDate t → date_number (next_day t) ≡ date_number t + 1
unfolding date_number
date_number-next_day t ok = elim (Bool-cases (ltb t.day (month_length t.year t.month))) [
  | inl inside ↦
      ap date_number (inside_month t inside) ∙ same_month t.year t.month t.day ok.day_first
  | inr last ↦
      let at_end : month_length t.year t.month ≡ t.day = ground (arith, last, ok.day_last) in
      ap date_number (after_month t last)
      ∙ month_behind t ok
      ∙ ap (λ d. march_date t.year t.month d + 1) at_end
]

month_length_bounds : (y m : ℕ) → (1 ≤ month_length y m) × (month_length y m ≤ 31)
month_length_bounds y m = ground arith

next_day-IsDate :
    (t : Date)
    → IsDate t
    → t.year + 1 < 2147483647
    → IsDate (next_day t) × ((next_day t).year ≤ t.year + 1)
next_day-IsDate t ok room = elim (Bool-cases (ltb t.day (month_length t.year t.month))) [
  | inl inside ↦
      subst {A = Date} (λ u. IsDate u × (u.year ≤ t.year + 1)) (sym (inside_month t inside))
        (
          record {
            year_first = ok.year_first;
            year_last = ok.year_last;
            month_first = ok.month_first;
            month_last = ok.month_last;
            day_first = omega arith;
            day_last = ground (arith, inside);
          },
          omega arith,
        )
  | inr last ↦
      subst {A = Date} (λ u. IsDate u × (u.year ≤ t.year + 1)) (sym (after_month t last))
        (elim (Bool-cases (t.month == 12)) [
          | inl december ↦
              rw (december, if◌then◌else◌)
                (
                  record {
                    year_first = omega arith;
                    year_last = room;
                    month_first = omega arith;
                    month_last = omega arith;
                    day_first = omega arith;
                    day_last = omega arith;
                  },
                  omega arith,
                )
          | inr earlier ↦
              rw (earlier, if◌then◌else◌)
                (
                  record {
                    year_first = ok.year_first;
                    year_last = ok.year_last;
                    month_first = omega arith;
                    month_last = not_december t.month ok.month_last earlier;
                    day_first = omega arith;
                    day_last = (month_length_bounds t.year (t.month + 1)).0;
                  },
                  omega arith,
                )
        ])
]
  where
    not_december : (m : ℕ) → m ≤ 12 → (m == 12) ≡ false → m + 1 ≤ 12
    not_december m a b = ground (arith, a, b)

-- The day that is n days behind 1970-01-01.
abbrev pub nth_day : ℕ → Date
nth_day zero = record { year = 1970; month = 1; day = 1 }
nth_day (suc n) = next_day (nth_day n)

nth_day-IsDate : (n : ℕ) → n < 2147480000 → IsDate (nth_day n) × ((nth_day n).year ≤ 1970 + n)
nth_day-IsDate zero h = (
  record {
    year_first = omega arith;
    year_last = omega arith;
    month_first = omega arith;
    month_last = omega arith;
    day_first = omega arith;
    day_last = omega arith;
  },
  omega arith,
)
nth_day-IsDate (suc n) h =
    let before = nth_day-IsDate n (omega (arith, h)) in
    let y = before.1 in
    let after = next_day-IsDate (nth_day n) before.0 (omega (arith, y, h)) in
    let z = after.1 in (after.0, omega (arith, y, z))

date_number-nth_day : (n : ℕ) → n < 2147480000 → date_number (nth_day n) ≡ n + 719468
unfolding date_number march_days
date_number-nth_day zero h = omega arith
date_number-nth_day (suc n) h =
    let next = date_number-next_day (nth_day n) (nth_day-IsDate n (omega (arith, h))).0 in
    let now = date_number-nth_day n (omega (arith, h)) in next ∙ omega (arith, now)

-- `days_from_civil` counts days: the day that is n days behind 1970-01-01 in the Gregorian calendar
-- has the number n, for every n below 2147480000.
pub days_from_civil-nth_day :
    (n : ℕ)
    → n < 2147480000
    → days_from_civil (nth_day n).year (nth_day n).month (nth_day n).day ≡ n
unfolding march_days date_number
days_from_civil-nth_day n h =
    let t : Date = nth_day n in
    let ok : IsDate t = (nth_day-IsDate n h).0 in
    let number = date_number-nth_day n h in
    let long = (month_length_bounds t.year t.month).1 in
    let last = ok.day_last in
    let late = ok.year_last in
    days_from_civil-march t.year t.month t.day ok.year_first (omega (arith, late)) ok.month_first
      ok.month_last ok.day_first (omega (arith, long, last))
    ∙ ap (λ k. (k + 18446744073708832148) % 18446744073709551616) {x = date_number t}
        {y = n + 719468} number
    ∙ wrap n h
  where
    wrap : (n : ℕ) → n < 2147480000 → (n + 719468 + 18446744073708832148) % 18446744073709551616 ≡ n
    wrap n h = omega (arith, h)
