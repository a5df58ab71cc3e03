-- ===== src/Dates.antt =====
-- Python's `datetime` as the scripts use it: `strptime(s, "%Y-%m-%d").date()`, the order of dates,
-- and `fromtimestamp(n, tz=utc).strftime(…)`.
pub mod Iso
pub mod Stamp
pub mod Calendar
pub mod Moment
use cluster_size_operator_fo.Prelude.{
  ℕ, ◌+◌, ◌-◌, ◌*◌, ◌/◌, ◌%◌, Bool, true, false, ◌&&◌, ◌||◌, not, Option, none, some, List, [], ◌∷◌,
  ◌++◌, leb, ltb, ◌==◌, nat_eq, if◌then◌else◌,
}
use cluster_size_operator_fo.Text.{Text, codes, split, join}
use cluster_size_operator_fo.Text.Number.{is_digit, digits_value}

pub record Date : Type 0 where
  pub year : ℕ
  pub month : ℕ
  pub day : ℕ

unfoldable pub is_leap : ℕ → Bool
is_leap y = y % 4 == 0 && (not (y % 100 == 0) || y % 400 == 0)

unfoldable pub days_in_month : ℕ → ℕ → ℕ
unfolding is_leap
days_in_month y m =
    if m == 2
    then (if is_leap y then 29 else 28)
    else if m == 4 || m == 6 || m == 9 || m == 11
    then 30
    else 31

-- `a <= b` on dates
unfoldable pub date_leb : Date → Date → Bool
date_leb a b =
    ltb a.year b.year
    || (leb a.year b.year && (ltb a.month b.month || (leb a.month b.month && leb a.day b.day)))

-- What `date(y, m, d)` accepts.
unfoldable pub valid_date : Date → Bool
unfolding days_in_month
valid_date a =
    leb 1 a.year
    && leb a.year 9999
    && leb 1 a.month
    && leb a.month 12
    && leb 1 a.day
    && leb a.day (days_in_month a.year a.month)

-- One or two digits, with the value in 1 to `top`.
unfoldable pub field_upto : ℕ → Text → Option ℕ
unfolding is_digit
field_upto top (c ∷ []) =
    if is_digit c && leb 1 (c - b'0') && leb (c - b'0') top then some (c - b'0') else none
field_upto top (c ∷ d ∷ []) =
    let n = (c - b'0') * 10 + (d - b'0') in
    if is_digit c && is_digit d && leb 1 n && leb n top then some n else none
field_upto top _ = none

-- A day may have a space in place of its first digit.
unfoldable pub day_field : Text → Option ℕ
unfolding field_upto
day_field (c ∷ d ∷ []) = if c == b' ' then field_upto 9 (d ∷ []) else field_upto 31 (c ∷ d ∷ [])
day_field s = field_upto 31 s

-- Four digits.
unfoldable pub year_field : Text → Option ℕ
unfolding is_digit
year_field (a ∷ b ∷ c ∷ d ∷ []) =
    if is_digit a && is_digit b && is_digit c && is_digit d
    then some (digits_value 0 (a ∷ b ∷ c ∷ d ∷ []))
    else none
year_field _ = none

unfoldable pub make_date : Option ℕ → Option ℕ → Option ℕ → Option Date
unfolding valid_date
make_date (some y) (some m) (some d) =
    let a : Date = record { year = y; month = m; day = d } in if valid_date a then some a else none
make_date _ _ _ = none

abbrev from_parts : List Text → Option Date
from_parts (y ∷ m ∷ d ∷ []) = make_date (year_field y) (field_upto 12 m) (day_field d)
from_parts _ = none

-- `datetime.strptime(s, "%Y-%m-%d").date()`; `none` is the `ValueError`. No field of the format
-- matches a `-`, so the text is cut at these.
unfoldable pub strptime : Text → Option Date
strptime s = from_parts (split b'-' s)

-- A number printed with `%02d`, for numbers below 100.
abbrev pub pad2 : ℕ → Text
pad2 n = (b'0' + n / 10) ∷ (b'0' + n % 10) ∷ []

-- A year printed with `%Y`, for years from 1000 to 9999.
abbrev pub pad4 : ℕ → Text
pad4 n = (b'0' + n / 1000) ∷ (b'0' + n / 100 % 10) ∷ (b'0' + n / 10 % 10) ∷ (b'0' + n % 10) ∷ []

-- `d.strftime('%Y-%m-%d')`
unfoldable pub iso : Date → Text
iso a = join b'-' (pad4 a.year ∷ pad2 a.month ∷ pad2 a.day ∷ [])
