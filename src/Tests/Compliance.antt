-- ===== src/Tests/Compliance.antt =====
-- The theorems on `evaluate_compliance.py` at concrete inputs.
use cluster_size_operator_fo.Prelude.{
  ℕ, ◌<◌, ◌^◌, arith, ◌≡◌, ◌+◌, refl, true, false, none, some, List, [], ◌∷◌, ◌++◌, nat_eq, list_eq,
  inl, contains,
}
use cluster_size_operator_fo.Text.{Text, codes, split, strip, lower, has_infix, read_lines}
use cluster_size_operator_fo.Base64.{decode_text, utf8_decode}
use cluster_size_operator_fo.Text.Number.{count_of, count_raises, isdigit, is_digit, read_digits}
use cluster_size_operator_fo.Text.Order.{IsArranged}
use cluster_size_operator_fo.Dict.{lookup, keys}
use cluster_size_operator_fo.Lifecycle.{load_lifecycle}
use cluster_size_operator_fo.Subscriptions.{load_subscriptions}
use cluster_size_operator_fo.Compliance.{Latest, Header, Node}
use cluster_size_operator_fo.Compliance.Ingest.{
  ingest, ingest_lines, cloud_platforms, make_header, make_version, part, make_node, header_raises,
}
use cluster_size_operator_fo.Compliance.Ingest.Reset.{
  IsHeaderLine, IsNodeLine, IsLookupLine, IsSnapshot, platform_of, fields, ingest-IsSnapshot,
}
use cluster_size_operator_fo.Compliance.Ingest.Invariant.{
  IsConsistent, is_readable, ingest-IsConsistent,
}
use cluster_size_operator_fo.Compliance.Ingest.Versions.{
  with_version, cloud_version_misattributed, ingest_own_version,
}
use cluster_size_operator_fo.Compliance.Rows.{
  Terms, EvaluatedRow, evaluate_rows, make_row, is_s390x, is_baremetal, arch_group, amd64, s390x,
}
use cluster_size_operator_fo.Compliance.Rows.Counts.{LoadRule, make_row-LoadRule}
use cluster_size_operator_fo.Compliance.Rows.Clusters.{AreSmall, ClusterRows, evaluate_rows_exact}
use cluster_size_operator_fo.Compliance.Groups.{sum, standard, premium}
use cluster_size_operator_fo.Compliance.Report.{Cell, report}
use cluster_size_operator_fo.Compliance.Groups.Totals.{tier_sum, untiered, sum_by_groups}
use cluster_size_operator_fo.Compliance.Report.Shape.{IsReport, report_shape}
use cluster_size_operator_fo.Compliance.Run.{Arguments, written, run_evaluation, terms_of}
use cluster_size_operator_fo.Compliance.Run.Complete.{IsRun, run_evaluation_complete}
use cluster_size_operator_fo.Tests.Data.{
  header_record, node_record, lookup_record, cloud_record, no_records, first_day, last_day,
}

header_record-IsHeaderLine : IsHeaderLine (codes "c1") header_record
unfolding strip split nat_eq header_raises count_raises isdigit is_digit list_eq lower
header_record-IsHeaderLine = record {
  solid = refl;
  tag = refl;
  long = refl;
  cluster = refl;
  readable = refl;
}

cloud_record-IsHeaderLine : IsHeaderLine (codes "c2") cloud_record
unfolding strip split nat_eq header_raises count_raises isdigit is_digit list_eq lower
cloud_record-IsHeaderLine = record {
  solid = refl;
  tag = refl;
  long = refl;
  cluster = refl;
  readable = refl;
}

node_record-IsNodeLine : IsNodeLine (codes "c1") node_record
unfolding strip split nat_eq count_raises isdigit is_digit
node_record-IsNodeLine = record {
  solid = refl;
  tag = refl;
  long = refl;
  cluster = refl;
  readable = refl;
}

lookup_record-IsLookupLine : IsLookupLine lookup_record
unfolding strip split nat_eq
lookup_record-IsLookupLine = record { solid = refl; tag = refl; long = refl }

versions : decode_text (part (fields lookup_record) 1) ≡ some (codes "1=4.20.27,2=4.19.30")
unfolding strip split decode_text nat_eq
versions = refl

on_premises : contains cloud_platforms (platform_of (fields header_record)) ≡ false
unfolding strip split lower nat_eq list_eq
on_premises = refl

in_cloud : contains cloud_platforms (platform_of (fields cloud_record)) ≡ true
unfolding strip split lower nat_eq list_eq
in_cloud = refl

ingest-IsSnapshot_example :
    (st' : Latest) × (ingest_lines (header_record ∷ node_record ∷ []) no_records ≡ some st')
    × IsSnapshot (codes "c1") header_record (node_record ∷ []) no_records st'
ingest-IsSnapshot_example =
    ingest-IsSnapshot (codes "c1") header_record (node_record ∷ []) no_records
      header_record-IsHeaderLine on_premises (node_record-IsNodeLine, tt)

ingest_own_version_example :
    (st' : Latest) × (ingest_lines
        ((header_record ∷ node_record ∷ []) ++ lookup_record ∷ [])
        no_records
      ≡ some st')
    × (lookup (codes "c1") st'.versions ≡ some (make_version (codes "1=4.20.27,2=4.19.30")))
unfolding lookup
ingest_own_version_example =
    ingest_own_version (codes "c1") header_record lookup_record (codes "1=4.20.27,2=4.19.30")
      (node_record ∷ []) no_records refl header_record-IsHeaderLine on_premises
      (node_record-IsNodeLine, tt) lookup_record-IsLookupLine versions

abbrev one_header : Latest
one_header = record no_records { headers = (codes "c1", make_header (fields header_record)) ∷ [] }

cloud_version_misattributed_example :
    ingest_lines (cloud_record ∷ lookup_record ∷ []) one_header
    ≡ some (with_version (codes "c1") (codes "1=4.20.27,2=4.19.30") one_header)
cloud_version_misattributed_example =
    cloud_version_misattributed (codes "c1") (codes "c2") cloud_record lookup_record
      (codes "1=4.20.27,2=4.19.30") one_header refl cloud_record-IsHeaderLine in_cloud
      lookup_record-IsLookupLine versions

abbrev two_records : Text
two_records = header_record ++ b'\n' ∷ node_record

two_lines : read_lines two_records ≡ header_record ∷ node_record ∷ []
unfolding read_lines nat_eq
two_lines = refl

readable_header : is_readable (fields header_record) ≡ true
unfolding strip split nat_eq list_eq count_raises isdigit is_digit
readable_header = refl

readable_node : is_readable (fields node_record) ≡ true
unfolding strip split nat_eq list_eq count_raises isdigit is_digit
readable_node = refl

ingest-IsConsistent_example : (st : Latest) × (ingest two_records ≡ some st) × IsConsistent st
ingest-IsConsistent_example =
    ingest-IsConsistent two_records (rw two_lines (readable_header, (readable_node, tt)))

abbrev terms : Terms
terms = record { lifecycle = []; r_start = first_day; r_end = last_day }

abbrev cluster : Header
cluster = make_header (fields header_record)

abbrev node : Node
node = record {
  hostname = codes "node-1";
  roles = codes "worker";
  architecture = codes "AMD64";
  cpu_raw = 9;
  memory = codes "64";
}

abbrev one_cluster : Latest
one_cluster = record one_header { nodes = (codes "c1", node ∷ []) ∷ [] }

make_row-LoadRule_example :
    LoadRule (is_s390x node) (is_baremetal cluster) node.cpu_raw (make_row terms cluster node)
make_row-LoadRule_example = make_row-LoadRule terms cluster node

few_cpus : (n : ℕ) → n < 1000 → n < 2 ^ 53
few_cpus n h = omega arith

one_cluster-AreSmall : AreSmall one_cluster (keys one_cluster.headers)
unfolding lookup list_eq nat_eq
one_cluster-AreSmall = ((few_cpus 9 (omega arith), tt), tt)

evaluate_rows_exact_example :
    (rows : List EvaluatedRow) × (ids : List Text) × (evaluate_rows terms one_cluster ≡ some rows)
    × IsArranged (keys one_cluster.headers) ids
    × ClusterRows terms one_cluster ids rows
evaluate_rows_exact_example = evaluate_rows_exact terms one_cluster one_cluster-AreSmall

abbrev row : EvaluatedRow
row = make_row terms cluster node

sum_by_groups_example :
    tier_sum (λ r. r.sub_phys) (row ∷ []) amd64 standard
      + tier_sum (λ r. r.sub_phys) (row ∷ []) amd64 premium
      + tier_sum (λ r. r.sub_phys) (row ∷ []) s390x standard
      + tier_sum (λ r. r.sub_phys) (row ∷ []) s390x premium
      + sum (λ r. r.sub_phys) (untiered (row ∷ []))
    ≡ sum (λ r. r.sub_phys) (row ∷ [])
unfolding make_row arch_group is_s390x has_infix nat_eq
sum_by_groups_example = sum_by_groups (λ r. r.sub_phys) (row ∷ []) (inl refl, tt)

report_shape_example :
    (records : List (List Cell)) × (report (load_subscriptions none) (row ∷ []) ≡ some records)
    × IsReport (load_subscriptions none) (row ∷ []) records
report_shape_example = report_shape none (row ∷ [])

abbrev arguments : Arguments
arguments = record {
  input_file = some two_records;
  subs_file = none;
  lifecycle_file = none;
  start_date = some first_day;
  end_date = none;
  today = last_day;
}

no_lifecycle : load_lifecycle none ≡ some []
unfolding load_lifecycle
no_lifecycle = refl

decoded_records : utf8_decode two_records ≡ some two_records
unfolding utf8_decode nat_eq
decoded_records = refl

header_field : (make_node (fields header_record)).cpu_raw ≡ 0
unfolding make_node strip split nat_eq count_of isdigit is_digit read_digits
header_field = refl

node_field : (make_node (fields node_record)).cpu_raw ≡ 0
unfolding make_node strip split nat_eq count_of isdigit is_digit read_digits
node_field = refl

run_evaluation_complete_example :
    (records : List (List Cell)) × (run_evaluation arguments ≡ written records)
    × IsRun none (terms_of arguments []) two_records records
run_evaluation_complete_example =
    run_evaluation_complete arguments two_records two_records [] refl decoded_records
      (rw two_lines (
        (readable_header, rw header_field (few_cpus 0 (omega arith))),
        ((readable_node, rw node_field (few_cpus 0 (omega arith))), tt),
      ))
      no_lifecycle
