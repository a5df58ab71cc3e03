-- ===== src/Receiver/Decode/Lines.antt =====
-- The lines of a message, decoded.
use cluster_size_operator_fo.Prelude.{
  ℕ, zero, suc, ◌≡◌, ◌≢◌, refl, ◌∙◌, true, Bool, ◌&&◌, Option, none, some, List, [], ◌∷◌, length,
  set, ap, arith, leb, Bool-cases, inl, inr, Option-cases, All, nat_eq, list_eq, if◌then◌else◌, ltb,
}
use cluster_size_operator_fo.Prelude.Int.{ℤ, pos, negsuc}
use cluster_size_operator_fo.Text.{Text, codes, join, split, starts_with}
use cluster_size_operator_fo.Text.Number.{int_of}
use cluster_size_operator_fo.Dates.Stamp.{TimeError, from_timestamp, last_second}
use cluster_size_operator_fo.Dict.{Dict, is_some, lookup}
use cluster_size_operator_fo.Lifecycle.{◌>>=◌}
use cluster_size_operator_fo.Dict.Laws.{is_some-some}
use cluster_size_operator_fo.Compliance.Ingest.{part}
use cluster_size_operator_fo.Receiver.Decode.{
  decode_epoch, decode_read, decoded, decode_moments, header_fields, resolve, process_line,
  process_lines,
}

-- An integer, if there is one, that is no second after the year 9999.
abbrev pub is_early : Option ℤ → Bool
is_early (some (pos n)) = leb n last_second
is_early _ = true

-- The epochs of a line, if it is a header, are no seconds after the year 9999.
abbrev pub in_time : Text → Bool
in_time line =
    let fields = split b',' line in
    if starts_with (codes "H,") line
    then is_early (int_of (part fields 5)) && is_early (int_of (part fields 7))
    else true

abbrev pub InTime : Text → Type 0
InTime line = in_time line ≡ true

decoded_total :
    (late : ℕ → TimeError) (s : Text) (n : ℕ)
    → leb n last_second ≡ true
    → is_some (decoded s (from_timestamp late n)) ≡ true
unfolding from_timestamp
decoded_total late s n h = rw (h) refl

decode_read_total :
    (late : ℕ → TimeError) (s : Text) (z : Option ℤ)
    → is_early z ≡ true
    → is_some (decode_read late s z) ≡ true
decode_read_total late s none h = refl
decode_read_total late s (some (negsuc n)) h = refl
decode_read_total late s (some (pos zero)) h = refl
decode_read_total late s (some (pos (suc n))) h = decoded_total late s (suc n) h

decode_epoch_total :
    (late : ℕ → TimeError) (s : Text)
    → is_early (int_of s) ≡ true
    → is_some (decode_epoch late s) ≡ true
unfolding decode_epoch
decode_epoch_total late s h = decode_read_total late s (int_of s) h

decode_moments_total :
    (late : ℕ → TimeError) (fields : List Text)
    → is_early (int_of (part fields 5)) ≡ true
    → is_early (int_of (part fields 7)) ≡ true
    → is_some (decode_moments late fields) ≡ true
unfolding decode_moments
decode_moments_total late fields h k =
    let (a, p) =
      is_some-some (decode_epoch late (part fields 5))
        (decode_epoch_total late (part fields 5) h) in
    let (b, q) =
      is_some-some (decode_epoch late (part fields 7))
        (decode_epoch_total late (part fields 7) k) in
    elim (Bool-cases (leb 8 (length fields))) [
      | inl y ↦ rw (y, p, ◌>>=◌, q) refl
      | inr n ↦ rw (n) refl
    ]

joined_total :
    (fields : Option (List Text))
    → is_some fields ≡ true
    → is_some (do f ← fields; some (join b',' f)) ≡ true
joined_total none h = cc
joined_total (some f) h = refl

part-set :
    (fields : List Text) (i j : ℕ) (v : Text) → i ≢ j → part (set fields i v) j ≡ part fields j
part-set [] i j v h = refl
part-set (f ∷ fields) zero zero v h = absurd (h refl)
part-set (f ∷ fields) zero (suc j) v h = refl
part-set (f ∷ fields) (suc i) zero v h = refl
part-set (f ∷ fields) (suc i) (suc j) v h = part-set fields i j v (λ e. h (ap suc e))

part-resolve :
    (table : Dict Text Text) (fields : List Text) (i j : ℕ)
    → i ≢ j
    → part (resolve table i fields) j ≡ part fields j
unfolding resolve
part-resolve table fields i j h = elim (Option-cases (lookup (part fields i) table)) [
  | inl e ↦ rw (e, resolve) refl
  | inr (v, e) ↦ rw (e, resolve) (part-set fields i j v h)
]

-- Looking up the fields 3 and 4 leaves the epochs.
looked_up :
    (table : Dict Text Text) (fields : List Text) (j : ℕ)
    → 3 ≢ j
    → 4 ≢ j
    → part (if ltb 4 (length fields) then resolve table 4 (resolve table 3 fields) else fields) j
      ≡ part fields j
looked_up table fields j h k = elim (Bool-cases (ltb 4 (length fields))) [
  | inl y ↦
      rw (y) (part-resolve table (resolve table 3 fields) 4 j k ∙ part-resolve table fields 3 j h)
  | inr n ↦ rw (n) refl
]

header_total :
    (late : ℕ → TimeError) (table : Dict Text Text) (fields : List Text)
    → is_early (int_of (part fields 5)) ≡ true
    → is_early (int_of (part fields 7)) ≡ true
    → is_some (do f ← header_fields late table fields; some (join b',' f)) ≡ true
unfolding header_fields
header_total late table fields h k = joined_total (decode_moments late _) (
    decode_moments_total late _
      (ap (λ s. is_early (int_of s)) (looked_up table fields 5 (omega arith) (omega arith)) ∙ h)
      (ap (λ s. is_early (int_of s)) (looked_up table fields 7 (omega arith) (omega arith)) ∙ k))

process_line_total :
    (late : ℕ → TimeError) (table : Dict Text Text) (line : Text)
    → InTime line
    → is_some (process_line late table line) ≡ true
unfolding process_line
process_line_total late table line h = ground (arith, header_total late table (split b',' line))

-- If no header has an epoch after the year 9999, the lines of a message are decoded, each to one line.
pub process_lines_total :
    (late : ℕ → TimeError) (table : Dict Text Text) (lines : List Text)
    → All InTime lines
    → (out : List Text) × (process_lines late table lines ≡ some out) × (length out ≡ length lines)
unfolding process_lines
process_lines_total late table [] h = ([], refl, refl)
process_lines_total late table (line ∷ lines) (h, hs) =
    let (l, p) =
      is_some-some (process_line late table line) (process_line_total late table line h) in
    let (ls, q, n) = process_lines_total late table lines hs in
    (l ∷ ls, rw (p, ◌>>=◌, q) refl, ap suc n)
