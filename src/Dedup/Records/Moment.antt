-- ===== src/Dedup/Records/Moment.antt =====
-- An epoch in a header becomes the text of its moment.
use cluster_size_operator_fo.Prelude.{ℕ, ◌≤◌, ◌≡◌, true, some, [], ◌∷◌, arith}
use cluster_size_operator_fo.Text.{Text}
use cluster_size_operator_fo.Text.Number.{isdigit, digits_value, count_of, int_of-isdigit}
use cluster_size_operator_fo.Dates.Stamp.{TimeError, from_timestamp, stamp, last_second}
use cluster_size_operator_fo.Dates.Moment.{IsMoment, stamp-IsMoment}
use cluster_size_operator_fo.Dedup.Records.{format_epoch_string}

count_of-isdigit : (val : Text) → isdigit val ≡ true → count_of val ≡ digits_value 0 val
unfolding count_of
count_of-isdigit val h = rw (h, int_of-isdigit val h) ground arith

format_epoch_string_shown :
    (late : ℕ → TimeError) (val : Text)
    → isdigit val ≡ true
    → count_of val ≤ last_second
    → format_epoch_string late val ≡ some (stamp (count_of val))
unfolding format_epoch_string isdigit from_timestamp
format_epoch_string_shown late [] h k = cc
format_epoch_string_shown late (c ∷ s) h k = ground arith

-- Digits that spell a number of seconds up to the end of the year 9999 are replaced by the text of a day of the calendar
-- and a time of day that make up that number.
pub format_epoch_string-IsMoment :
    (late : ℕ → TimeError) (val : Text)
    → isdigit val ≡ true
    → digits_value 0 val ≤ last_second
    → (w : Text) × (format_epoch_string late val ≡ some w) × IsMoment (digits_value 0 val) w
format_epoch_string-IsMoment late val h k =
    let e : count_of val ≡ digits_value 0 val = count_of-isdigit val h in
    (
      stamp (count_of val),
      format_epoch_string_shown late val h (omega arith),
      rw e (stamp-IsMoment (digits_value 0 val) k),
    )
