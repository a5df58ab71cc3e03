-- ===== src/Receiver/Decode.antt =====
-- `decode_epoch`, `extract_lookup_table`, and the decoding of a line.
pub mod Lines
pub mod Moment
use cluster_size_operator_fo.Prelude.{
  ℕ, zero, suc, Bool, true, false, ◌&&◌, not, Option, none, some, List, [], ◌∷◌, ◌++◌, map, length,
  set, leb, ltb, ◌==◌, list_eq, nat_eq, if◌then◌else◌,
}
use mathlib.Core.Option
use cluster_size_operator_fo.Prelude.Int.{ℤ, pos, negsuc}
use cluster_size_operator_fo.Text.{Text, codes, strip, split, split_once, join, starts_with}
use cluster_size_operator_fo.Text.Number.{int_of}
use cluster_size_operator_fo.Base64.{decode_text}
use cluster_size_operator_fo.Dates.Stamp.{
  TimeError, Stamped, shown, failed, value_error, overflow_error, os_error, from_timestamp,
}
use cluster_size_operator_fo.Dict.{Dict, lookup, insert, or_else}
use cluster_size_operator_fo.Lifecycle.{◌>>=◌}
use cluster_size_operator_fo.Compliance.Ingest.{part}

abbrev pub not_applicable : Text
not_applicable = codes "N/A"

-- Only a `ValueError` is caught; any other exception leaves the function, as `none`.
abbrev pub decoded : Text → Stamped → Option Text
decoded epoch_str (shown s) = some s
decoded epoch_str (failed value_error) = some epoch_str
decoded epoch_str (failed _) = none

abbrev pub decode_read : (ℕ → TimeError) → Text → Option ℤ → Option Text
decode_read late epoch_str none = some epoch_str
decode_read late epoch_str (some (negsuc n)) = some not_applicable
decode_read late epoch_str (some (pos zero)) = some not_applicable
decode_read late epoch_str (some (pos (suc n))) = decoded epoch_str (from_timestamp late (suc n))

unfoldable pub decode_epoch : (ℕ → TimeError) → Text → Option Text
decode_epoch late epoch_str = decode_read late epoch_str (int_of epoch_str)

-- `decoded_str.replace('#', ' ')`
abbrev unhash : ℕ → ℕ
unhash c = if c == b'#' then b' ' else c

abbrev put_segment : Option (Text × Text) → Dict Text Text → Dict Text Text
put_segment none table = table
put_segment (some (k, v)) table = insert (strip k) (strip v) table

unfoldable pub read_segments : List Text → Dict Text Text → Dict Text Text
read_segments [] table = table
read_segments (s ∷ segments) table = read_segments segments (put_segment (split_once b'=' s) table)

abbrev table_of : Option Text → Dict Text Text
table_of none = []
table_of (some decoded_str) = read_segments (split b',' (map unhash decoded_str)) []

abbrev behind_comma : Option (Text × Text) → Option Text
behind_comma none = none
behind_comma (some (tag, rest)) = some (strip rest)

-- An exception leaves the table empty: nothing in the loop raises one.
unfoldable pub extract_lookup_table : Text → Dict Text Text
extract_lookup_table r_line =
    table_of (do base64_data ← behind_comma (split_once b',' r_line); decode_text base64_data)

-- `if fields[i] in lookup_table: fields[i] = lookup_table[fields[i]]`
unfoldable pub resolve : Dict Text Text → ℕ → List Text → List Text
resolve table i fields = elim (lookup (part fields i) table) [
  | none ↦ fields
  | some v ↦ set fields i v
]

unfoldable pub decode_moments : (ℕ → TimeError) → List Text → Option (List Text)
decode_moments late fields =
    if leb 8 (length fields)
    then (do
      a ← decode_epoch late (part fields 5)
      b ← decode_epoch late (part fields 7)
      some (set (set fields 5 a) 7 b))
    else some fields

unfoldable pub header_fields : (ℕ → TimeError) → Dict Text Text → List Text → Option (List Text)
header_fields late table fields =
    decode_moments late
      (if ltb 4 (length fields) then resolve table 4 (resolve table 3 fields) else fields)

unfoldable pub name_node : List Text → List Text
name_node fields =
    if ltb 2 (length fields) && not (starts_with (codes "node-") (part fields 2))
    then set fields 2 (codes "node-" ++ part fields 2)
    else fields

unfoldable pub node_fields : Dict Text Text → List Text → List Text
node_fields table fields =
    if ltb 3 (length fields) then resolve table 3 (name_node fields) else name_node fields

-- The loop's body; `none` is an exception.
unfoldable pub process_line : (ℕ → TimeError) → Dict Text Text → Text → Option Text
process_line late table line =
    if starts_with (codes "H,") line
    then (do fields ← header_fields late table (split b',' line); some (join b',' fields))
    else if starts_with (codes "N,") line
    then some (join b',' (node_fields table (split b',' line)))
    else some line

unfoldable pub process_lines : (ℕ → TimeError) → Dict Text Text → List Text → Option (List Text)
process_lines late table [] = some []
process_lines late table (line ∷ lines) = do
  l ← process_line late table line
  ls ← process_lines late table lines
  some (l ∷ ls)
