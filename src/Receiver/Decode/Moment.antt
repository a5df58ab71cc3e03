-- ===== src/Receiver/Decode/Moment.antt =====
-- What `decode_epoch` makes of a field.
use cluster_size_operator_fo.Prelude.{ℕ, zero, suc, ◌≤◌, ◌≡◌, some, none, arith, refl, Option}
use cluster_size_operator_fo.Prelude.Int.{ℤ, pos, negsuc, ◌≤ℤ◌}
use cluster_size_operator_fo.Text.{Text}
use cluster_size_operator_fo.Text.Number.{int_of}
use cluster_size_operator_fo.Dates.Stamp.{TimeError, from_timestamp, stamp, last_second, shown}
use cluster_size_operator_fo.Dates.Moment.{IsMoment, stamp-IsMoment}
use cluster_size_operator_fo.Dict.{or_else}
use cluster_size_operator_fo.Receiver.Decode.{not_applicable, decode_read, decode_epoch}

-- What a field becomes, by the integer that it spells, if it spells one.
abbrev pub Decoded : Text → Option ℤ → Text → Type 0
Decoded s none w = w ≡ s
Decoded s (some (negsuc n)) w = w ≡ not_applicable
Decoded s (some (pos zero)) w = w ≡ not_applicable
Decoded s (some (pos (suc n))) w = IsMoment (suc n) w

from_timestamp-stamp :
    (late : ℕ → TimeError) (n : ℕ) → n ≤ last_second → from_timestamp late n ≡ shown (stamp n)
unfolding from_timestamp
from_timestamp-stamp late n h = ground arith

decode_read-Decoded :
    (late : ℕ → TimeError) (s : Text) (z : Option ℤ)
    → or_else z (pos 0) ≤ℤ pos last_second
    → (w : Text) × (decode_read late s z ≡ some w) × Decoded s z w
decode_read-Decoded late s none h = (s, refl, refl)
decode_read-Decoded late s (some (negsuc n)) h = (not_applicable, refl, refl)
decode_read-Decoded late s (some (pos zero)) h = (not_applicable, refl, refl)
decode_read-Decoded late s (some (pos (suc n))) h =
    let k : suc n ≤ last_second = omega arith in
    (stamp (suc n), rw (from_timestamp-stamp late (suc n) k) refl, stamp-IsMoment (suc n) k)

-- For a field that spells no integer after the last second of the year 9999: a positive one becomes
-- the text of that moment, zero and a negative one become `N/A`, and any other text stays as it is.
pub decode_epoch-Decoded :
    (late : ℕ → TimeError) (s : Text)
    → or_else (int_of s) (pos 0) ≤ℤ pos last_second
    → (w : Text) × (decode_epoch late s ≡ some w) × Decoded s (int_of s) w
unfolding decode_epoch
decode_epoch-Decoded late s h = decode_read-Decoded late s (int_of s) h
