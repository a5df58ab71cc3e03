-- ===== src/Tests/WorkInProgress.antt =====
-- The earlier variants of the scripts at concrete inputs.
use cluster_size_operator_fo.Prelude.{
  ◌*◌, inl, All, ◌≡◌, refl, some, List, [], ◌∷◌, list_eq, nat_eq,
}
use cluster_size_operator_fo.Text.{
  lower, has_infix, starts_with, Text, codes, strip, lstrip, rstrip, is_space, split, read_lines,
  unify_newlines,
}
use cluster_size_operator_fo.Text.Order.{sorted, insert_sorted, text_leb}
use cluster_size_operator_fo.Dict.{Dict, lookup, insert}
use cluster_size_operator_fo.Dedup.Records.{
  empty, on_node, put_r, put_t, cluster_lines, output_for, output_lines,
}
use cluster_size_operator_fo.WorkInProgress.Deduplicate.{
  on_header, on_record, read_line, read_log, read_files, deduplicate,
}
use cluster_size_operator_fo.Compliance.{Header, Node, clean_val}
use cluster_size_operator_fo.Compliance.Rows.{EvaluatedRow, arch_group, is_s390x}
use cluster_size_operator_fo.Compliance.Groups.{sum}
use cluster_size_operator_fo.Compliance.Groups.Totals.{HasArch}
use cluster_size_operator_fo.WorkInProgress.Evaluate.{make_header}
use cluster_size_operator_fo.WorkInProgress.Evaluate.Rows.{make_row}
use cluster_size_operator_fo.WorkInProgress.Evaluate.Twice.{over_groups, grand_total_twice}
use cluster_size_operator_fo.Tests.Data.{first_day, last_day}
use cluster_size_operator_fo.WorkInProgress.Deduplicate.Again.{deduplicate_idem}

-- Two clusters, of which the second one is seen twice.
abbrev log_dir : Dict Text Text
log_dir =
    (
      codes "telemetry_2026-07-12.log",
      codes "H,c2,4\nN,c2,old\nR,r2\n# note\nH,c1,6\nN,c1,n1\nT,t1\nH,c2,5\n N,c2,new \n",
    )
    ∷ []

abbrev names : List Text
names = codes "telemetry_2026-07-12.log" ∷ []

abbrev output : List Text
output =
    codes "H,c1,6"
    ∷ codes "N,c1,n1"
    ∷ codes "T,t1"
    ∷ codes "H,c2,5"
    ∷ codes "N,c2,new"
    ∷ codes "R,r2"
    ∷ []

log_dir-output : deduplicate log_dir names ≡ some output
unfolding deduplicate read_files read_log read_line on_record on_header on_node put_r put_t
    output_lines output_for cluster_lines sorted insert_sorted text_leb lookup insert read_lines
    unify_newlines split strip lstrip rstrip is_space list_eq nat_eq
log_dir-output = refl

deduplicate_idem_example : output_lines (read_log output empty) ≡ some output
deduplicate_idem_example = deduplicate_idem log_dir names output log_dir-output

-- A header of the logs for tests, which has the versions in its fields 3 and 4.
abbrev old_header : Text
old_header =
    codes "H,c1,6,4.20.27,4.19.30,2026-06-30 13:57:58 UTC,None,2026-07-12 10:00:00 UTC,amd64"

abbrev cluster : Header
cluster = make_header (split b',' old_header)

old_header-fields :
    (cluster.cluster_version ≡ codes "4.20.27")
    × (cluster.platform ≡ codes "NotAvailable")
    × (cluster.last_update_received ≡ codes "2026-07-12 10:00:00 UTC")
unfolding make_header clean_val split strip lstrip rstrip is_space lower list_eq nat_eq
old_header-fields = (refl, refl, refl)

abbrev worker : Node
worker = record {
  hostname = codes "prod-worker-01";
  roles = codes "worker";
  architecture = codes "TRUE";
  cpu_raw = 50;
  memory = codes "NotAvailable";
}

abbrev rows : List EvaluatedRow
rows =
    make_row (record { lifecycle = []; r_start = first_day; r_end = last_day }) cluster worker ∷ []

rows-HasArch : All HasArch rows
unfolding make_row arch_group is_s390x has_infix starts_with nat_eq
rows-HasArch = (inl refl, tt)

grand_total_twice_example :
    (over_groups (λ t. t.phys_sub) rows ≡ 2 * sum (λ r. r.sub_phys) rows)
    × (over_groups (λ t. t.virt_sub) rows ≡ 2 * sum (λ r. r.sub_virt) rows)
grand_total_twice_example = grand_total_twice rows rows-HasArch
