-- ===== src/Dates/Moment.antt =====
-- The text of a moment says which moment it is.
use cluster_size_operator_fo.Prelude.{ℕ, ◌+◌, ◌*◌, ◌/◌, ◌%◌, ◌≤◌, ◌<◌, ◌≡◌, refl, ◌∷◌, ◌++◌, arith}
use cluster_size_operator_fo.Text.{Text, codes}
use cluster_size_operator_fo.Dates.{Date, iso, pad2}
use cluster_size_operator_fo.Dates.Iso.{IsDate}
use cluster_size_operator_fo.Dates.Calendar.{day_number, date_of_days-day_number}
use cluster_size_operator_fo.Dates.Stamp.{stamp, date_of_days, last_second}

-- `%Y-%m-%d %H:%M:%S UTC`
abbrev pub clock : Date → ℕ → ℕ → ℕ → Text
clock d h m s = iso d ++ b' ' ∷ (pad2 h ++ b':' ∷ (pad2 m ++ b':' ∷ (pad2 s ++ codes " UTC")))

-- The text is that of the moment `n` seconds behind 1970-01-01.
pub record IsMoment (n : ℕ) (text : Text) : Type 0 where
  pub date : Date
  pub hour : ℕ
  pub minute : ℕ
  pub second : ℕ
  pub valid : IsDate date
  pub hours : hour < 24
  pub minutes : minute < 60
  pub seconds : second < 60
  pub counted : n ≡ day_number date * 86400 + hour * 3600 + minute * 60 + second
  pub shown : text ≡ clock date hour minute second

day_sum :
    (n : ℕ)
    → n ≡ n / 86400 * 86400 + n % 86400 / 3600 * 3600 + n % 86400 / 60 % 60 * 60 + n % 86400 % 60
day_sum n = omega arith

pub stamp-IsMoment : (n : ℕ) → n ≤ last_second → IsMoment n (stamp n)
unfolding stamp
stamp-IsMoment n h =
    let (valid, late, days) = date_of_days-day_number (n / 86400) (omega arith) in
    record {
      date = date_of_days (n / 86400);
      hour = n % 86400 / 3600;
      minute = n % 86400 / 60 % 60;
      second = n % 86400 % 60;
      valid = valid;
      hours = omega arith;
      minutes = omega arith;
      seconds = omega arith;
      counted = rw days (day_sum n);
      shown = refl;
    }
