-- ===== src/Dates/Iso.antt =====
-- A date is read back from its print, and the order of dates.
use cluster_size_operator_fo.Prelude.{ℕ, ◌≤◌, ◌<◌, ◌≡◌, true, false, some, [], ◌∷◌, nat_eq, arith}
use cluster_size_operator_fo.Text.{split, join}
use cluster_size_operator_fo.Text.Split.{split-join}
use cluster_size_operator_fo.Text.Number.{is_digit}
use cluster_size_operator_fo.Dates.{
  Date, days_in_month, date_leb, field_upto, day_field, make_date, year_field, strptime, pad2, pad4,
  iso,
}

pub days_in_month-le : (y m : ℕ) → days_in_month y m ≤ 31
unfolding days_in_month
days_in_month-le y m = ground arith

pub record IsDate (a : Date) : Type 0 where
  pub year_low : 1000 ≤ a.year
  pub year_high : a.year ≤ 9999
  pub month_low : 1 ≤ a.month
  pub month_high : a.month ≤ 12
  pub day_low : 1 ≤ a.day
  pub day_high : a.day ≤ days_in_month a.year a.month

year_pad4 : (n : ℕ) → n ≤ 9999 → year_field (pad4 n) ≡ some n
unfolding year_field is_digit
year_pad4 n h = ground arith

field_pad2 : (top n : ℕ) → 1 ≤ n → n ≤ top → top < 100 → field_upto top (pad2 n) ≡ some n
unfolding field_upto is_digit
field_pad2 top n h k l = ground arith

day_pad2 : (n : ℕ) → 1 ≤ n → n ≤ 31 → day_field (pad2 n) ≡ some n
unfolding day_field
day_pad2 n h k = ground (arith, field_pad2 31 n)

make_date-IsDate :
    (a : Date) → IsDate a → make_date (some a.year) (some a.month) (some a.day) ≡ some a
unfolding make_date
make_date-IsDate a v = ground arith

split-iso :
    (y m d : ℕ)
    → y ≤ 9999
    → m < 100
    → d < 100
    → split b'-' (join b'-' (pad4 y ∷ pad2 m ∷ pad2 d ∷ [])) ≡ pad4 y ∷ pad2 m ∷ pad2 d ∷ []
split-iso y m d h k l = split-join b'-' (pad4 y) (pad2 m ∷ pad2 d ∷ []) (omega arith) (omega arith)

-- A date between the years 1000 and 9999 is read back from its print.
pub strptime-iso : (a : Date) → IsDate a → strptime (iso a) ≡ some a
unfolding strptime iso
strptime-iso a v =
    let day_high = days_in_month-le a.year a.month in
    rw
      (split-iso a.year a.month a.day v.year_high (omega (arith, v.month_high))
        (omega (arith, v.day_high, day_high)))
      (rw
        (
          year_pad4 a.year v.year_high,
          field_pad2 12 a.month v.month_low v.month_high (omega arith),
          day_pad2 a.day v.day_low (omega (arith, v.day_high, day_high)),
        )
        (make_date-IsDate a v))

-- `date_leb` is a total order.
pub date_leb_total : (a b : Date) → date_leb a b ≡ false → date_leb b a ≡ true
unfolding date_leb
date_leb_total a b h = ground arith

pub date_leb_trans :
    (a b c : Date) → date_leb a b ≡ true → date_leb b c ≡ true → date_leb a c ≡ true
unfolding date_leb
date_leb_trans a b c h k = ground arith

pub date_leb_refl : (a : Date) → date_leb a a ≡ true
unfolding date_leb
date_leb_refl a = ground arith
