-- ===== src/Compliance/Run.antt =====
-- `run_evaluation` as a whole, from the files to the report.
pub mod Complete
use cluster_size_operator_fo.Prelude.{Option, none, some, List}
use cluster_size_operator_fo.Text.{Text}
use cluster_size_operator_fo.Base64.{Bytes, utf8_decode}
use cluster_size_operator_fo.Dates.{Date}
use cluster_size_operator_fo.Dict.{or_else}
use cluster_size_operator_fo.Lifecycle.{Lifecycle, load_lifecycle, ◌>>=◌}
use cluster_size_operator_fo.Subscriptions.{load_subscriptions}
use cluster_size_operator_fo.Compliance.Ingest.{ingest}
use cluster_size_operator_fo.Compliance.Rows.{Terms, evaluate_rows}
use cluster_size_operator_fo.Compliance.Report.{Cell, report}

-- The arguments, with the contents of the files that they name, and the current date. The input is
-- bytes, which are decoded here; the other two files are given as they are read.
pub record Arguments : Type 0 where
  pub input_file : Option Bytes
  pub subs_file : Option Text
  pub lifecycle_file : Option (List (List Text))
  pub start_date : Option Date
  pub end_date : Option Date
  pub today : Date

-- `input_missing`: the message that the input file is missing, and no report.
-- `raised`: an exception leaves the function.
pub data Outcome : Type 0 where
  input_missing : Outcome
  raised : Outcome
  written : List (List Cell) → Outcome

unfoldable pub terms_of : Arguments → Lifecycle → Terms
terms_of args lifecycle = record {
  lifecycle = lifecycle;
  r_start = or_else args.start_date args.today;
  r_end = or_else args.end_date args.today;
}

-- `none` is an exception. The file is opened as strict UTF-8.
unfoldable pub master_report : Option Text → Terms → Bytes → Option (List (List Cell))
master_report subs_file terms input = do
  file ← utf8_decode input
  st ← ingest file
  rows ← evaluate_rows terms st
  report (load_subscriptions subs_file) rows

abbrev pub outcome : Option (List (List Cell)) → Outcome
outcome none = raised
outcome (some records) = written records

unfoldable pub evaluate_input : Option Bytes → Option Text → Terms → Outcome
evaluate_input none subs_file terms = input_missing
evaluate_input (some input) subs_file terms = outcome (master_report subs_file terms input)

unfoldable pub run_evaluation : Arguments → Outcome
run_evaluation args = elim (load_lifecycle args.lifecycle_file) [
  | none ↦ raised
  | some lifecycle ↦ evaluate_input args.input_file args.subs_file (terms_of args lifecycle)
]
