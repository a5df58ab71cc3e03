-- ===== src/Dates/Calendar.antt =====
-- The date of a day number is a date of the calendar, and counting its days gives the number back.
use cluster_size_operator_fo.Prelude.{
  ℕ, zero, suc, ◌+◌, ◌-◌, ◌≤◌, ◌<◌, ◌≡◌, refl, false, ltb, ltb→lt, arith, nat_eq, dec_lt, inl, inr,
  Bool-cases, ap,
}
use cluster_size_operator_fo.Dates.{Date, is_leap, days_in_month}
use cluster_size_operator_fo.Dates.Iso.{IsDate}
use cluster_size_operator_fo.Dates.Stamp.{year_length, find_month, find_date, date_of_days}

-- The days of the years from 1970 on, `k` of them.
unfoldable pub days_before : ℕ → ℕ
days_before zero = 0
days_before (suc k) = days_before k + year_length (1970 + k)

-- The days of the first `k` months of a year.
unfoldable pub month_days : ℕ → ℕ → ℕ
month_days y zero = 0
month_days y (suc k) = month_days y k + days_in_month y (suc k)

-- The days from 1970-01-01 to a date.
unfoldable pub day_number : Date → ℕ
day_number d = days_before (d.year - 1970) + month_days d.year (d.month - 1) + (d.day - 1)

months_of_year : (y : ℕ) → month_days y 12 ≡ year_length y
unfolding month_days year_length days_in_month is_leap
months_of_year y = ground arith

-- The date that stands `n` days behind the first `k` months of the year `y`.
record InYear (y k n : ℕ) (d : Date) : Type 0 where
  same_year : d.year ≡ y
  month_low : 1 ≤ d.month
  month_high : d.month ≤ 12
  day_low : 1 ≤ d.day
  day_high : d.day ≤ days_in_month d.year d.month
  counted : month_days y (d.month - 1) + (d.day - 1) ≡ month_days y k + n

month_days-suc : (y k : ℕ) → month_days y (suc k) ≡ month_days y k + days_in_month y (suc k)
unfolding month_days
month_days-suc y k = refl

sub-suc-one : (k : ℕ) → suc k - 1 ≡ k
sub-suc-one k = omega arith

this_month :
    (y k n : ℕ)
    → k < 12
    → n < days_in_month y (suc k)
    → InYear y k n (record { year = y; month = suc k; day = n + 1 })
this_month y k n h l = record {
  same_year = refl;
  month_low = omega arith;
  month_high = h;
  day_low = omega arith;
  day_high = omega arith;
  counted = simp (sub-suc-one) (omega arith);
}

ge_of_ltb : (a b : ℕ) → ltb a b ≡ false → b ≤ a
ge_of_ltb a b h = ground arith

next_month :
    (y k n : ℕ) (d : Date)
    → days_in_month y (suc k) ≤ n
    → InYear y (suc k) (n - days_in_month y (suc k)) d
    → InYear y k n d
next_month y k n d le v = record {
  same_year = v.same_year;
  month_low = v.month_low;
  month_high = v.month_high;
  day_low = v.day_low;
  day_high = v.day_high;
  counted = omega (arith, month_days-suc y k, v.counted);
}

find_month-InYear :
    (left y k n : ℕ)
    → k + left ≡ 11
    → month_days y k + n < month_days y 12
    → InYear y k n (find_month left y (suc k) n)
unfolding find_month
find_month-InYear zero y k n e h =
    let last : suc k ≡ 12 = omega arith in
    this_month y k n (omega arith)
      (omega (arith, month_days-suc y k, ap (λ (j : ℕ). month_days y j) last))
find_month-InYear (suc left) y k n e h = elim (Bool-cases (ltb n (days_in_month y (suc k)))) [
  | inl l ↦ rw l (this_month y k n (omega arith) (ltb→lt _ _ l))
  | inr l ↦ rw l (
      next_month y k n (find_month left y (suc (suc k)) (n - days_in_month y (suc k)))
        (ge_of_ltb n (days_in_month y (suc k)) l)
        (find_month-InYear left y (suc k) (n - days_in_month y (suc k)) (omega arith)
          (omega (arith, month_days-suc y k, ge_of_ltb n (days_in_month y (suc k)) l))))
]

month_days_zero : (y : ℕ) → month_days y 0 ≡ 0
unfolding month_days
month_days_zero y = refl

years_since : (k : ℕ) → 1970 + k - 1970 ≡ k
years_since k = omega arith

plus_zero : (j : ℕ) → j + 0 ≡ j
plus_zero j = omega arith

plus_suc : (j k : ℕ) → j + suc k ≡ suc (j + k)
plus_suc j k = omega arith

-- A date of the years from 1970 on, `n` days behind the first day of year `1970 + k`.
record InCalendar (k n : ℕ) (d : Date) : Type 0 where
  late_year : 1970 + k ≤ d.year
  month_low : 1 ≤ d.month
  month_high : d.month ≤ 12
  day_low : 1 ≤ d.day
  day_high : d.day ≤ days_in_month d.year d.month
  counted : day_number d ≡ days_before k + n

days_before-suc : (k : ℕ) → days_before (suc k) ≡ days_before k + year_length (1970 + k)
unfolding days_before
days_before-suc k = refl

length-year : (y : ℕ) → 365 ≤ year_length y
unfolding year_length
length-year y = ground arith

day_number-year :
    (k : ℕ) (d : Date)
    → d.year ≡ 1970 + k
    → day_number d ≡ days_before k + month_days (1970 + k) (d.month - 1) + (d.day - 1)
unfolding day_number
day_number-year k d e = omega (
  arith,
  ap (λ (y : ℕ). days_before (y - 1970)) e,
  ap days_before (years_since k),
  ap (λ (y : ℕ). month_days y (d.month - 1)) e,
)

this_year : (k n : ℕ) (d : Date) → InYear (1970 + k) 0 n d → InCalendar k n d
this_year k n d v = record {
  late_year = omega (arith, v.same_year);
  month_low = v.month_low;
  month_high = v.month_high;
  day_low = v.day_low;
  day_high = v.day_high;
  counted = omega (arith, day_number-year k d v.same_year, v.counted, month_days_zero (1970 + k));
}

year_month : (y n : ℕ) → n < year_length y → InYear y 0 n (find_month 11 y 1 n)
year_month y n l =
    find_month-InYear 11 y 0 n refl (omega (arith, months_of_year y, month_days_zero y))

next_year :
    (k n : ℕ) (d : Date)
    → year_length (1970 + k) ≤ n
    → InCalendar (suc k) (n - year_length (1970 + k)) d
    → InCalendar k n d
next_year k n d le v = record {
  late_year = omega (arith, v.late_year);
  month_low = v.month_low;
  month_high = v.month_high;
  day_low = v.day_low;
  day_high = v.day_high;
  counted = omega (arith, v.counted, days_before-suc k);
}

find_date-InCalendar :
    (fuel y k n : ℕ) → y ≡ 1970 + k → n ≤ fuel → InCalendar k n (find_date fuel y n)
unfolding find_date
find_date-InCalendar zero y k n e h =
    this_year k n (find_month 11 y 1 n) (rw (← e) (year_month y n (omega (arith, length-year y))))
find_date-InCalendar (suc fuel) y k n e h = elim (Bool-cases (ltb n (year_length y))) [
  | inl l ↦
      rw l (
        this_year k n (find_month 11 y 1 n)
          (rw (← e) (year_month y n (ltb→lt n (year_length y) l))))
  | inr l ↦
      let le = ge_of_ltb n (year_length y) l in
      rw l (
        next_year k n (find_date fuel (suc y) (n - year_length y)) (rw (← e) le) (
          rw (← e) (
            find_date-InCalendar fuel (suc y) (suc k) (n - year_length y) (omega arith)
              (omega (arith, length-year y)))))
]

days_before-le : (j k : ℕ) → days_before j ≤ days_before (j + k)
days_before-le j zero = omega (arith, ap days_before (plus_zero j))
days_before-le j (suc k) =
    omega (arith, days_before-le j k, days_before-suc (j + k), ap days_before (plus_suc j k))

years_to_10000 : days_before 8030 ≡ 2932897
unfolding days_before year_length is_leap nat_eq
years_to_10000 = refl

days_before-day_number : (d : Date) → days_before (d.year - 1970) ≤ day_number d
unfolding day_number
days_before-day_number d = omega arith

year_bound : (d : Date) → day_number d ≤ 2932896 → d.year ≤ 9999
year_bound d h = elim (dec_lt 9999 d.year) [
  | no n ↦ omega arith
  | yes l ↦
      let rest : ℕ = d.year - 10000 in
      let split : 8030 + rest ≡ d.year - 1970 = omega arith in
      absurd (
        omega (
          arith,
          days_before-le 8030 rest,
          years_to_10000,
          ap days_before split,
          days_before-day_number d,
        ))
]

days_before_zero : days_before 0 ≡ 0
unfolding days_before
days_before_zero = refl

calendar-IsDate :
    (n : ℕ) (d : Date)
    → n ≤ 2932896
    → InCalendar 0 n d
    → IsDate d × (1970 ≤ d.year) × (day_number d ≡ n)
calendar-IsDate n d h v =
    let counted : day_number d ≡ n = omega (arith, v.counted, days_before_zero) in
    (
      record {
        year_low = omega (arith, v.late_year);
        year_high = year_bound d (omega (arith, counted));
        month_low = v.month_low;
        month_high = v.month_high;
        day_low = v.day_low;
        day_high = v.day_high;
      },
      omega (arith, v.late_year),
      counted,
    )

-- Up to the last day of the year 9999, the date of a day number is a date of the calendar, from 1970 on,
-- and its days since 1970-01-01 are that number.
pub date_of_days-day_number :
    (n : ℕ)
    → n ≤ 2932896
    → IsDate (date_of_days n) × (1970 ≤ (date_of_days n).year) × (day_number (date_of_days n) ≡ n)
unfolding date_of_days
date_of_days-day_number n h =
    calendar-IsDate n (find_date n 1970 n) h
      (find_date-InCalendar n 1970 0 n (omega arith) (omega arith))
