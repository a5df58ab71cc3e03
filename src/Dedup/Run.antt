-- ===== src/Dedup/Run.antt =====
-- `parse_telemetry` as a whole.
pub mod Complete
use cluster_size_operator_fo.Prelude.{ℕ, Bool, Option, none, some, List, [], ◌∷◌, list_eq, nat_eq}
use cluster_size_operator_fo.Text.{Text, read_lines}
use cluster_size_operator_fo.Dates.{Date}
use cluster_size_operator_fo.Dates.Stamp.{TimeError}
use cluster_size_operator_fo.Dict.{Dict, lookup}
use cluster_size_operator_fo.Lifecycle.{◌>>=◌}
use cluster_size_operator_fo.Dedup.Files.{all_log_files, select_files}
use cluster_size_operator_fo.Dedup.Backups.{Backup, rotate_old_file}
use cluster_size_operator_fo.Dedup.Records.{Snapshot, empty, read_log, output_lines}

-- The arguments, and what the run finds outside: the log folder, the backups and the time of the old
-- output, the clock's text, which files can be removed, and what `fromtimestamp` raises.
pub record Job : Type 0 where
  pub start_date : Option Date
  pub end_date : Option Date
  pub last_day_only : Bool
  pub output_file : Text
  pub log_dir : Dict Text Text
  pub old_output : Option ℕ
  pub backups : List Backup
  pub timestamp : Text
  pub removable : Text → Bool
  pub late : ℕ → TimeError

-- `raised`: an exception leaves the function, behind the rotation of the backups.
pub data Outcome : Type 0 where
  no_log_files : Outcome
  no_match : Outcome
  raised : List Backup → Outcome
  written : List Backup → List Text → Outcome

-- `none` is an exception.
unfoldable pub read_files :
    (ℕ → TimeError) → Dict Text Text → List Text → Snapshot → Option Snapshot
read_files late dir [] st = some st
read_files late dir (name ∷ names) st = do
  file ← lookup name dir
  st' ← read_log late (read_lines file) st
  read_files late dir names st'

unfoldable pub deduplicate : (ℕ → TimeError) → Dict Text Text → List Text → Option (List Text)
deduplicate late dir names = do st ← read_files late dir names empty; output_lines st

abbrev pub outcome : List Backup → Option (List Text) → Outcome
outcome backups none = raised backups
outcome backups (some out) = written backups out

abbrev pub rotated : Job → List Backup
rotated job = rotate_old_file job.removable job.output_file job.timestamp job.old_output job.backups

unfoldable pub process_files : Job → List Text → Outcome
process_files job [] = no_match
process_files job (f ∷ fs) = outcome (rotated job) (deduplicate job.late job.log_dir (f ∷ fs))

unfoldable pub process_all : Job → List Text → Outcome
process_all job [] = no_log_files
process_all job (f ∷ fs) =
    process_files job (select_files job.start_date job.end_date job.last_day_only (f ∷ fs))

unfoldable pub parse_telemetry : Job → Outcome
parse_telemetry job = process_all job (all_log_files job.log_dir)
