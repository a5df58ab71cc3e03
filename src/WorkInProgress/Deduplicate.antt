-- ===== src/WorkInProgress/Deduplicate.antt =====
-- telemetry_receiver/WorkInProgress-deduplication-compliance/deduplicate_telemetry.py. It keeps each
-- header as it is. The choice of the files, the backups, the nodes, the `R` and `T` records and the
-- output are as in the script that replaced it, whose definitions are used.
pub mod Clean
pub mod Rebuild
pub mod Again
use cluster_size_operator_fo.Prelude.{
  ℕ, Bool, ◌&&◌, Option, none, some, List, [], ◌∷◌, length, leb, ◌==◌, list_eq, nat_eq,
  if◌then◌else◌,
}
use cluster_size_operator_fo.Text.{Text, codes, strip, split, is_nil, read_lines}
use cluster_size_operator_fo.Dict.{Dict, keys, last, lookup, insert}
use cluster_size_operator_fo.Lifecycle.{◌>>=◌}
use cluster_size_operator_fo.Compliance.Ingest.{part}
use cluster_size_operator_fo.Dedup.Files.{all_log_files, select_files}
use cluster_size_operator_fo.Dedup.Records.{Snapshot, empty, on_node, put_r, put_t, output_lines}
use cluster_size_operator_fo.Dedup.Run.{Job, Outcome, no_log_files, no_match, outcome, rotated}

unfoldable pub on_header : Text → List Text → Snapshot → Snapshot
on_header line parts st = record st {
  headers = insert (part parts 1) line st.headers;
  nodes = insert (part parts 1) [] st.nodes;
}

unfoldable pub on_record : Text → List Text → Snapshot → Snapshot
on_record line parts st =
    if part parts 0 == codes "H" && leb 2 (length parts)
    then on_header line parts st
    else if part parts 0 == codes "N" && leb 2 (length parts)
    then on_node line parts st
    else if part parts 0 == codes "R"
    then put_r (last (keys st.headers)) line st
    else if part parts 0 == codes "T"
    then put_t (last (keys st.headers)) line st
    else st

-- The loop's body.
unfoldable pub read_line : Text → Snapshot → Snapshot
read_line raw st =
    if is_nil (strip raw) then st else on_record (strip raw) (split b',' (strip raw)) st

unfoldable pub read_log : List Text → Snapshot → Snapshot
read_log [] st = st
read_log (line ∷ lines) st = read_log lines (read_line line st)

-- `none` is the exception for a missing file.
unfoldable pub read_files : Dict Text Text → List Text → Snapshot → Option Snapshot
read_files dir [] st = some st
read_files dir (name ∷ names) st = do
  file ← lookup name dir
  read_files dir names (read_log (read_lines file) st)

unfoldable pub deduplicate : Dict Text Text → List Text → Option (List Text)
deduplicate dir names = do st ← read_files dir names empty; output_lines st

unfoldable pub process_files : Job → List Text → Outcome
process_files job [] = no_match
process_files job (f ∷ fs) = outcome (rotated job) (deduplicate job.log_dir (f ∷ fs))

unfoldable pub process_all : Job → List Text → Outcome
process_all job [] = no_log_files
process_all job (f ∷ fs) =
    process_files job (select_files job.start_date job.end_date job.last_day_only (f ∷ fs))

unfoldable pub parse_telemetry : Job → Outcome
parse_telemetry job = process_all job (all_log_files job.log_dir)
