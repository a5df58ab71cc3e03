-- ===== src/Dates/Stamp.antt =====
-- `datetime.fromtimestamp(n, tz=timezone.utc).strftime('%Y-%m-%d %H:%M:%S UTC')`.
use cluster_size_operator_fo.Prelude.{
  ℕ, zero, suc, ◌+◌, ◌-◌, ◌/◌, ◌%◌, ◌++◌, ◌∷◌, leb, ltb, if◌then◌else◌,
}
use cluster_size_operator_fo.Text.{Text, codes}
use cluster_size_operator_fo.Dates.{Date, is_leap, days_in_month, pad2, iso}

unfoldable pub year_length : ℕ → ℕ
year_length y = if is_leap y then 366 else 365

-- The month that day `n` of a year, counted from 0, falls in; `left` months are left behind `m`.
unfoldable pub find_month : ℕ → ℕ → ℕ → ℕ → Date
find_month zero y m n = record { year = y; month = m; day = n + 1 }
find_month (suc left) y m n =
    let later = find_month left y (suc m) (n - days_in_month y m) in
    if ltb n (days_in_month y m) then record { year = y; month = m; day = n + 1 } else later

-- The date `n` days behind the first day of the year `y`.
unfoldable pub find_date : ℕ → ℕ → ℕ → Date
find_date zero y n = find_month 11 y 1 n
find_date (suc fuel) y n =
    let later = find_date fuel (suc y) (n - year_length y) in
    if ltb n (year_length y) then find_month 11 y 1 n else later

-- The date `n` days behind 1970-01-01. Each round takes a year, so `n` rounds are enough.
unfoldable pub date_of_days : ℕ → Date
date_of_days n = find_date n 1970 n

-- The text of a moment, given in seconds since 1970-01-01.
unfoldable pub stamp : ℕ → Text
stamp n =
    let s = n % 86400 in
    iso (date_of_days (n / 86400))
    ++ b' '
      ∷ (pad2 (s / 3600) ++ b':' ∷ (pad2 (s / 60 % 60) ++ b':' ∷ (pad2 (s % 60) ++ codes " UTC")))

-- The exceptions of `fromtimestamp`.
pub data TimeError : Type 0 where
  value_error overflow_error os_error : TimeError

pub data Stamped : Type 0 where
  shown : Text → Stamped
  failed : TimeError → Stamped

-- 9999-12-31 23:59:59 UTC
abbrev pub last_second : ℕ
last_second = 253402300799

-- Which exception a later moment raises depends on the platform: it is the parameter `late`.
unfoldable pub from_timestamp : (ℕ → TimeError) → ℕ → Stamped
from_timestamp late n = if leb n last_second then shown (stamp n) else failed (late n)
