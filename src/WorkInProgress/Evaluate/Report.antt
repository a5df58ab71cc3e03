-- ===== src/WorkInProgress/Evaluate/Report.antt =====
-- The totals and the report of the earlier variant of `run_evaluation`: a group takes the rows of its
-- architecture, whatever their support. The cells, the available subscriptions and the gap of a group are
-- as in the script that replaced it.
use cluster_size_operator_fo.Prelude.{
  Option, none, some, List, [], ◌∷◌, ◌++◌, ◌==◌, list_eq, nat_eq, if◌then◌else◌,
}
use cluster_size_operator_fo.Text.{Text}
use cluster_size_operator_fo.Base64.{Bytes, utf8_decode}
use cluster_size_operator_fo.Lifecycle.{load_lifecycle, ◌>>=◌}
use cluster_size_operator_fo.Subscriptions.{Subs, load_subscriptions}
use cluster_size_operator_fo.Compliance.Rows.{EvaluatedRow, Terms}
use cluster_size_operator_fo.Compliance.Groups.{Group, GrandTotal, aggr_groups, sum, available, gap}
use cluster_size_operator_fo.Compliance.Report.{
  Cell, csv_header, node_part, total_cells, available_part, gap_cells,
}
use cluster_size_operator_fo.Compliance.Run.{
  Arguments, Outcome, raised, input_missing, outcome, terms_of,
}
use cluster_size_operator_fo.WorkInProgress.Evaluate.{ingest}
use cluster_size_operator_fo.WorkInProgress.Evaluate.Rows.{evaluate_rows}

-- `[r for r in evaluated_rows if r["node_architecture"] == arch]`
unfoldable pub filtered : Group → List EvaluatedRow → List EvaluatedRow
filtered g [] = []
filtered g (r ∷ rows) =
    let rest = filtered g rows in if r.node_architecture == g.arch then r ∷ rest else rest

unfoldable pub grand_total : List EvaluatedRow → Group → GrandTotal
grand_total rows g =
    let rs = filtered g rows in
    record {
      cores = sum (λ r. r.total_physical_cpu_cores) rs;
      vcpus = sum (λ r. r.total_virtual_vcpus) rs;
      phys_sub = sum (λ r. r.sub_phys) rs;
      virt_sub = sum (λ r. r.sub_virt) rs;
      t1_p = sum (λ r. r.eus_t1_phys) rs;
      t2_p = sum (λ r. r.eus_t2_phys) rs;
      t3_p = sum (λ r. r.eus_t3_phys) rs;
      t1_v = sum (λ r. r.eus_t1_virt) rs;
      t2_v = sum (λ r. r.eus_t2_virt) rs;
      t3_v = sum (λ r. r.eus_t3_virt) rs;
    }

unfoldable pub total_part : List EvaluatedRow → List Group → List (List Cell)
total_part rows [] = []
total_part rows (g ∷ gs) = total_cells g (grand_total rows g) ∷ total_part rows gs

unfoldable pub gap_part : Subs → List EvaluatedRow → List Group → Option (List (List Cell))
gap_part subs rows [] = some []
gap_part subs rows (g ∷ gs) = do
  a ← available subs g
  rest ← gap_part subs rows gs
  some (gap_cells g (gap (grand_total rows g) a) ∷ rest)

-- The records that the file gets; `none` is a `KeyError`.
unfoldable pub report : Subs → List EvaluatedRow → Option (List (List Cell))
report subs rows = do
  avail ← available_part subs aggr_groups
  gaps ← gap_part subs rows aggr_groups
  some (csv_header ∷ (node_part rows ++ (total_part rows aggr_groups ++ (avail ++ gaps))))

unfoldable pub master_report : Option Text → Terms → Bytes → Option (List (List Cell))
master_report subs_file terms input = do
  file ← utf8_decode input
  st ← ingest file
  rows ← evaluate_rows terms st
  report (load_subscriptions subs_file) rows

unfoldable pub evaluate_input : Option Bytes → Option Text → Terms → Outcome
evaluate_input none subs_file terms = input_missing
evaluate_input (some input) subs_file terms = outcome (master_report subs_file terms input)

unfoldable pub run_evaluation : Arguments → Outcome
run_evaluation args = elim (load_lifecycle args.lifecycle_file) [
  | none ↦ raised
  | some lifecycle ↦ evaluate_input args.input_file args.subs_file (terms_of args lifecycle)
]
