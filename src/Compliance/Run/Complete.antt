-- ===== src/Compliance/Run/Complete.antt =====
-- The run writes a whole report.
use cluster_size_operator_fo.Prelude.{
  ◌≡◌, ap, ◌∙◌, Option, some, List, [], ◌∷◌, All, list_eq, nat_eq,
}
use cluster_size_operator_fo.Text.{Text, read_lines}
use cluster_size_operator_fo.Text.Order.{IsArranged}
use cluster_size_operator_fo.Base64.{Bytes, utf8_decode}
use cluster_size_operator_fo.Dict.{keys}
use cluster_size_operator_fo.Lifecycle.{Lifecycle, load_lifecycle, ◌>>=◌}
use cluster_size_operator_fo.Subscriptions.{load_subscriptions}
use cluster_size_operator_fo.Compliance.{Latest}
use cluster_size_operator_fo.Compliance.Ingest.{ingest}
use cluster_size_operator_fo.Compliance.Ingest.Invariant.{IsGood, IsLoaded, ingest-IsLoaded}
use cluster_size_operator_fo.Compliance.Rows.{EvaluatedRow, Terms}
use cluster_size_operator_fo.Compliance.Rows.Nodes.{IsSmall}
use cluster_size_operator_fo.Compliance.Rows.Clusters.{ClusterRows, AreSmall, evaluate_rows_exact}
use cluster_size_operator_fo.Compliance.Report.{Cell}
use cluster_size_operator_fo.Compliance.Report.Shape.{IsReport, report_shape}
use cluster_size_operator_fo.Compliance.Run.{
  Arguments, written, terms_of, master_report, evaluate_input, run_evaluation,
}

-- What the run makes of the text of its input: the state that is read, the rows of its clusters, and
-- the records on these rows.
pub record IsRun (subs_file : Option Text) (terms : Terms) (file : Text)
    (records : List (List Cell)) : Type 0 where
  pub st : Latest
  pub rows : List EvaluatedRow
  pub ids : List Text
  pub reads : ingest file ≡ some st
  pub arranged : IsArranged (keys st.headers) ids
  pub evaluated : ClusterRows terms st ids rows
  pub reported : IsReport (load_subscriptions subs_file) rows records

all_small : (st : Latest) (ids : List Text) → IsLoaded IsSmall st → AreSmall st ids
all_small st [] h = tt
all_small st (id ∷ ids) h = (h.each id, all_small st ids h)

master_report_complete :
    (subs_file : Option Text) (terms : Terms) (input : Bytes) (file : Text)
    → utf8_decode input ≡ some file
    → All (IsGood IsSmall) (read_lines file)
    → (records : List (List Cell)) × (master_report subs_file terms input ≡ some records)
      × IsRun subs_file terms file records
unfolding master_report
master_report_complete subs_file terms input file decodes good =
    let (st, reads, loaded) = ingest-IsLoaded IsSmall file good in
    let (rows, ids, runs, arranged, evaluated) =
      evaluate_rows_exact terms st (all_small st (keys st.headers) loaded) in
    let (records, writes, reported) = report_shape subs_file rows in
    (
      records,
      rw (decodes, ◌>>=◌, reads, runs) writes,
      record {
        st = st;
        rows = rows;
        ids = ids;
        reads = reads;
        arranged = arranged;
        evaluated = evaluated;
        reported = reported;
      },
    )

run_written :
    (args : Arguments) (input : Bytes) (lifecycle : Lifecycle) (records : List (List Cell))
    → args.input_file ≡ some input
    → load_lifecycle args.lifecycle_file ≡ some lifecycle
    → master_report args.subs_file (terms_of args lifecycle) input ≡ some records
    → run_evaluation args ≡ written records
unfolding run_evaluation evaluate_input
run_written args input lifecycle records here loads writes =
    rw (loads, run_evaluation)
      (ap (λ f. evaluate_input f args.subs_file (terms_of args lifecycle)) here
        ∙ rw (writes, evaluate_input))

-- If the lifecycle file loads, the input file is there and is UTF-8, `int` can read the counts of its
-- headers and nodes, and no line has a number of 2^53 or more as its fifth field, where a node has its
-- CPUs, then no exception leaves the run, and it writes a report: the file is read, the rows are those of
-- the nodes that count in the clusters with a header, in the order of the ids, and the records are the
-- header, the rows, and the grand totals, the available subscriptions and the gaps of the four groups.
pub run_evaluation_complete :
    (args : Arguments) (input : Bytes) (file : Text) (lifecycle : Lifecycle)
    → args.input_file ≡ some input
    → utf8_decode input ≡ some file
    → All (IsGood IsSmall) (read_lines file)
    → load_lifecycle args.lifecycle_file ≡ some lifecycle
    → (records : List (List Cell)) × (run_evaluation args ≡ written records)
      × IsRun args.subs_file (terms_of args lifecycle) file records
run_evaluation_complete args input file lifecycle here decodes good loads =
    let (records, writes, run) =
      master_report_complete args.subs_file (terms_of args lifecycle) input file decodes good in
    (records, run_written args input lifecycle records here loads writes, run)
