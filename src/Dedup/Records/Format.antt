-- ===== src/Dedup/Records/Format.antt =====
-- `format_epoch_string`: formatting twice is formatting once, and reading does not fail.
use cluster_size_operator_fo.Prelude.{
  ℕ, ◌+◌, ◌/◌, ◌≤◌, ◌≡◌, refl, subst, true, false, Option, none, some, List, [], ◌∷◌, list_eq,
  nat_eq, arith, leb, leb→le, inl, inr, Bool-cases, Bool, ◌&&◌, ◌==◌, if◌then◌else◌, All,
}
use mathlib.Core.Option.{some-injective}
use cluster_size_operator_fo.Text.{
  Text, codes, strip, lstrip, rstrip, is_space, is_nil, join, split,
}
use cluster_size_operator_fo.Text.Number.{isdigit, is_digit, count_of, digit-not-space}
use cluster_size_operator_fo.Dates.{iso}
use cluster_size_operator_fo.Dates.Calendar.{date_of_days-day_number}
use cluster_size_operator_fo.Dates.Stamp.{
  TimeError, failed, value_error, overflow_error, os_error, last_second, stamp, date_of_days,
  from_timestamp,
}
use cluster_size_operator_fo.Dict.{is_some}
use cluster_size_operator_fo.Compliance.Ingest.{part}
use cluster_size_operator_fo.Compliance.{not_available}
use cluster_size_operator_fo.Dedup.Records.{
  Snapshot, format_epoch_string, formatted, on_header, on_record, read_line, then_read, read_log,
}

-- An `H` record whose fields 4 and 6 spell, if they are digits, no second after the year 9999; any other
-- line too.
abbrev pub is_early : Text → Bool
is_early line =
    let parts = split b',' (strip line) in
    if part parts 0 == codes "H"
    then leb (count_of (part parts 4)) last_second && leb (count_of (part parts 6)) last_second
    else true

abbrev pub IsEarly : Text → Type 0
IsEarly line = is_early line ≡ true

formatted-is_some :
    (late : ℕ → TimeError) (val : Text) (n : ℕ)
    → leb n last_second ≡ true
    → is_some (formatted val (from_timestamp late n)) ≡ true
unfolding from_timestamp
formatted-is_some late val n early = rw (early) refl

format-is_some :
    (late : ℕ → TimeError) (val : Text)
    → leb (count_of val) last_second ≡ true
    → is_some (format_epoch_string late val) ≡ true
unfolding format_epoch_string
format-is_some late val early = ground (arith, formatted-is_some late val (count_of val) early)

read_line-is_some :
    (late : ℕ → TimeError) (line : Text) (st : Snapshot)
    → IsEarly line
    → is_some (read_line late line st) ≡ true
unfolding read_line on_record on_header
read_line-is_some late line st early = ground (
  arith,
  format-is_some late (part (split b',' (strip line)) 4),
  format-is_some late (part (split b',' (strip line)) 6),
)

then_read-is_some :
    (o : Option Snapshot) (f : Snapshot → Option Snapshot)
    → is_some o ≡ true
    → ((st : Snapshot) → is_some (f st) ≡ true)
    → is_some (then_read f o) ≡ true
then_read-is_some none f h k = cc
then_read-is_some (some st) f h k = k st

-- Reading lines succeeds if no header has a moment after the year 9999.
pub read_log-is_some :
    (late : ℕ → TimeError) (lines : List Text) (st : Snapshot)
    → All IsEarly lines
    → is_some (read_log late lines st) ≡ true
unfolding read_log
read_log-is_some late [] st h = refl
read_log-is_some late (line ∷ lines) st (h, hs) =
    then_read-is_some (read_line late line st) (read_log late lines)
      (read_line-is_some late line st h) (λ st'. read_log-is_some late lines st' hs)

first_digit : (y : ℕ) → y ≤ 9999 → is_space (b'0' + y / 1000) ≡ false
first_digit y h = digit-not-space (b'0' + y / 1000) (unfold is_digit in ground arith)

rstrip-stamp : (n : ℕ) → rstrip (stamp n) ≡ stamp n
unfolding rstrip stamp iso join is_space nat_eq
rstrip-stamp n = refl

lstrip-stamp : (n : ℕ) → (date_of_days (n / 86400)).year ≤ 9999 → lstrip (stamp n) ≡ stamp n
unfolding stamp iso join lstrip
lstrip-stamp n h = rw (first_digit (date_of_days (n / 86400)).year h)

isdigit-stamp : (n : ℕ) → isdigit (stamp n) ≡ false
unfolding isdigit stamp iso join is_digit
isdigit-stamp n = ground arith

is_nil-stamp : (n : ℕ) → is_nil (stamp n) ≡ false
unfolding stamp iso join
is_nil-stamp n = refl

strip-stamp : (n : ℕ) → n ≤ last_second → strip (stamp n) ≡ stamp n
unfolding strip
strip-stamp n h =
    let (date, _, _) = date_of_days-day_number (n / 86400) (omega arith) in
    rw (lstrip-stamp n date.year_high) (rstrip-stamp n)

module _ (late : ℕ → TimeError) where
  format_text :
      (w : Text)
      → is_nil w ≡ false
      → isdigit w ≡ false
      → strip w ≡ w
      → format_epoch_string late w ≡ some w
  unfolding format_epoch_string
  format_text w a b c = rw (a, b, c)

  format-stamp : (n : ℕ) → n ≤ last_second → format_epoch_string late (stamp n) ≡ some (stamp n)
  format-stamp n h = format_text (stamp n) (is_nil-stamp n) (isdigit-stamp n) (strip-stamp n h)

  -- What is left as it is stays so.
  format_kept :
      (val w : Text)
      → val ≡ w
      → format_epoch_string late val ≡ some w
      → format_epoch_string late w ≡ some w
  format_kept val w e h = subst (λ v. format_epoch_string late v ≡ some w) e h

  failed_kept :
      (val w : Text) (e : TimeError) → strip val ≡ val → formatted val (failed e) ≡ some w → val ≡ w
  failed_kept val w value_error c h = cc
  failed_kept val w overflow_error c h = cc
  failed_kept val w os_error c h = cc

  format_digits :
      (val w : Text) (n : ℕ)
      → strip val ≡ val
      → formatted val (from_timestamp late n) ≡ some w
      → format_epoch_string late val ≡ some w
      → format_epoch_string late w ≡ some w
  unfolding from_timestamp
  format_digits val w n c f h = elim (Bool-cases (leb n last_second)) [
    | inl l ↦
        let same : stamp n ≡ w = some-injective (stamp n) w (rw l at f) in
        subst (λ v. format_epoch_string late v ≡ some v) same
          (format-stamp n (leb→le n last_second l))
    | inr l ↦ format_kept val w (failed_kept val w (late n) c (rw l at f)) h
  ]

  format-not_available : format_epoch_string late not_available ≡ some not_available
  format-not_available =
      format_text not_available refl (unfold isdigit is_digit in refl)
        (unfold strip lstrip rstrip is_space nat_eq in refl)

  -- For a field with no white space at its ends, the result of formatting is formatted to itself: an epoch
  -- to the text of its moment, an empty field to `NotAvailable`, and any other to itself.
  pub format_epoch_string_idem :
      (val w : Text)
      → strip val ≡ val
      → format_epoch_string late val ≡ some w
      → format_epoch_string late w ≡ some w
  unfolding format_epoch_string
  format_epoch_string_idem val w c h = elim (Bool-cases (is_nil val)) [
    | inl a ↦
        subst (λ v. format_epoch_string late v ≡ some v)
          (some-injective not_available w (rw a at h)) format-not_available
    | inr a ↦ elim (Bool-cases (isdigit val)) [
      | inl b ↦ format_digits val w (count_of val) c (rw (a, b) at h) h
      | inr b ↦ format_kept val w (cc (c, some-injective (strip val) w (rw (a, b) at h))) h
    ]
  ]
