-- ===== src/Dedup/Records.antt =====
-- The loop of `parse_telemetry` over the lines of the log files, and the output that it writes.
pub mod Latest
pub mod Lines
pub mod Output
pub mod Format
pub mod Moment
pub mod Misattribution
use cluster_size_operator_fo.Prelude.{
  ℕ, Bool, true, false, ◌&&◌, ◌||◌, Option, none, some, List, [], ◌∷◌, ◌++◌, length, set, leb, ◌==◌,
  list_eq, nat_eq, if◌then◌else◌,
}
use cluster_size_operator_fo.Prelude.Int.{pos}
use cluster_size_operator_fo.Text.{Text, codes, strip, split, join, starts_with, is_nil}
use cluster_size_operator_fo.Text.Number.{isdigit, count_of}
use cluster_size_operator_fo.Text.Order.{sorted}
use cluster_size_operator_fo.Dates.Stamp.{
  TimeError, Stamped, shown, failed, value_error, overflow_error, os_error, from_timestamp,
}
use cluster_size_operator_fo.Dict.{Dict, keys, last, lookup, insert, has_key, or_else}
use cluster_size_operator_fo.Lifecycle.{◌>>=◌}
use cluster_size_operator_fo.Compliance.Ingest.{part}
use cluster_size_operator_fo.Compliance.{not_available}

-- The `except` clause: a `ValueError` or an `OverflowError` passes on to the last line of the
-- function; any other exception leaves it, as `none`.
abbrev formatted : Text → Stamped → Option Text
formatted val (shown s) = some s
formatted val (failed value_error) = some (strip val)
formatted val (failed overflow_error) = some (strip val)
formatted val (failed os_error) = none

unfoldable pub format_epoch_string : (ℕ → TimeError) → Text → Option Text
format_epoch_string late val =
    if is_nil val
    then some not_available
    else if isdigit val
    then formatted val (from_timestamp late (count_of val))
    else some (strip val)

-- The four dictionaries of the function, by cluster.
pub record Snapshot : Type 0 where
  pub headers : Dict Text Text
  pub nodes : Dict Text (List Text)
  pub r_records : Dict Text Text
  pub t_records : Dict Text Text

abbrev pub empty : Snapshot
empty = record { headers = []; nodes = []; r_records = []; t_records = [] }

unfoldable pub on_header : (ℕ → TimeError) → List Text → Snapshot → Option Snapshot
on_header late parts st = do
  installed ← format_epoch_string late (part parts 4)
  updated ← format_epoch_string late (part parts 6)
  some (record st {
    headers = insert (part parts 1) (join b',' (set (set parts 4 installed) 6 updated)) st.headers;
    nodes = insert (part parts 1) [] st.nodes;
  })

-- A node of a cluster without a list of nodes starts one.
unfoldable pub on_node : Text → List Text → Snapshot → Snapshot
on_node line parts st = record st {
  nodes = insert (part parts 1) (or_else (lookup (part parts 1) st.nodes) [] ++ line ∷ []) st.nodes;
}

unfoldable pub put_r : Option Text → Text → Snapshot → Snapshot
put_r none line st = st
put_r (some id) line st = record st { r_records = insert id line st.r_records }

unfoldable pub put_t : Option Text → Text → Snapshot → Snapshot
put_t none line st = st
put_t (some id) line st = record st { t_records = insert id line st.t_records }

unfoldable pub on_record : (ℕ → TimeError) → Text → List Text → Snapshot → Option Snapshot
on_record late line parts st =
    if part parts 0 == codes "H" && leb 8 (length parts)
    then on_header late parts st
    else if part parts 0 == codes "N" && leb 2 (length parts)
    then some (on_node line parts st)
    else if part parts 0 == codes "R"
    then some (put_r (last (keys st.headers)) line st)
    else if part parts 0 == codes "T"
    then some (put_t (last (keys st.headers)) line st)
    else some st

-- The loop's body.
unfoldable pub read_line : (ℕ → TimeError) → Text → Snapshot → Option Snapshot
read_line late raw st =
    if is_nil (strip raw) || starts_with (codes "#") (strip raw)
    then some st
    else on_record late (strip raw) (split b',' (strip raw)) st

abbrev then_read : (Snapshot → Option Snapshot) → Option Snapshot → Option Snapshot
then_read f none = none
then_read f (some st) = f st

unfoldable pub read_log : (ℕ → TimeError) → List Text → Snapshot → Option Snapshot
read_log late [] st = some st
read_log late (line ∷ lines) st = then_read (read_log late lines) (read_line late line st)

abbrev pub optional : Option Text → List Text
optional none = []
optional (some line) = line ∷ []

-- The lines that a cluster with the header `h` gets in the output.
unfoldable pub cluster_lines : Snapshot → Text → Text → List Text
cluster_lines st id h =
    h
    ∷ (or_else (lookup id st.nodes) []
        ++ (optional (lookup id st.r_records) ++ optional (lookup id st.t_records)))

unfoldable pub output_for : Snapshot → List Text → Option (List Text)
output_for st [] = some []
output_for st (id ∷ ids) = do
  h ← lookup id st.headers
  rest ← output_for st ids
  some (cluster_lines st id h ++ rest)

-- The lines of the output; `none` would be a `KeyError`.
unfoldable pub output_lines : Snapshot → Option (List Text)
output_lines st = output_for st (sorted (keys st.headers))
