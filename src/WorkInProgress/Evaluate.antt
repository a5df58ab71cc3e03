-- ===== src/WorkInProgress/Evaluate.antt =====
-- telemetry_receiver/WorkInProgress-deduplication-compliance/evaluate_compliance.py: the loop that reads
-- the deduplicated file. The header has the versions in its fields 3 and 4, and there is no lookup
-- table. The subscriptions, the lifecycle, `clean_val` and the nodes are as in the script that replaced
-- it, whose definitions are used; `Latest` has no versions here.
pub mod Rows
pub mod Report
pub mod Twice
use cluster_size_operator_fo.Prelude.{
  ℕ, Bool, ◌&&◌, not, Option, none, some, List, [], ◌∷◌, length, leb, contains, ◌==◌, list_eq,
  nat_eq, if◌then◌else◌,
}
use cluster_size_operator_fo.Text.{Text, codes, strip, split, lower, is_nil, read_lines}
use cluster_size_operator_fo.Text.Number.{count_of, count_raises}
use cluster_size_operator_fo.Dict.{insert}
use cluster_size_operator_fo.Compliance.{Header, Latest, clean_val}
use cluster_size_operator_fo.Compliance.Ingest.{
  empty, part, cloud_platforms, read_node, then_ingest,
}

unfoldable pub make_header : List Text → Header
make_header parts = record {
  cluster_id = part parts 1;
  platform = clean_val (part parts 6);
  cluster_version = clean_val (part parts 3);
  cluster_initial_version = clean_val (part parts 4);
  cluster_node_count = count_of (part parts 2);
  cluster_installed_at = clean_val (part parts 5);
  support = codes "NO SUPPORT DEFINED";
  last_update_received = clean_val (part parts 7);
}

unfoldable pub on_header : List Text → Latest → Latest
on_header parts st =
    if contains cloud_platforms (lower (strip (part parts 6))) then st else record st {
      headers = insert (part parts 1) (make_header parts) st.headers;
      nodes = insert (part parts 1) [] st.nodes;
    }

-- Whether `int` raises a `ValueError` on the count of a header that is not skipped.
unfoldable pub header_raises : List Text → Bool
header_raises parts =
    not (contains cloud_platforms (lower (strip (part parts 6)))) && count_raises (part parts 2)

-- An `H` record; `none` is the `ValueError`.
unfoldable pub read_header : List Text → Latest → Option Latest
read_header parts st = if header_raises parts then none else some (on_header parts st)

unfoldable pub on_record : List Text → Latest → Option Latest
on_record parts st =
    if part parts 0 == codes "H" && leb 9 (length parts)
    then read_header parts st
    else if part parts 0 == codes "N" && leb 6 (length parts)
    then read_node parts st
    else some st

-- The loop's body.
unfoldable pub ingest_line : Text → Latest → Option Latest
ingest_line raw st = if is_nil (strip raw) then some st else on_record (split b',' (strip raw)) st

unfoldable pub ingest_lines : List Text → Latest → Option Latest
ingest_lines [] st = some st
ingest_lines (line ∷ lines) st = then_ingest (ingest_lines lines) (ingest_line line st)

unfoldable pub ingest : Text → Option Latest
ingest file = ingest_lines (read_lines file) empty
