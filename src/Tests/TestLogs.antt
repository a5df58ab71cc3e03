-- ===== src/Tests/TestLogs.antt =====
-- The logs for tests, deduplicated.
use cluster_size_operator_fo.Prelude.{
  ◌≡◌, refl, some, List, [], ◌∷◌, ◌++◌, take, drop, list_eq, nat_eq,
}
use cluster_size_operator_fo.Text.{
  Text, codes, strip, lstrip, rstrip, is_space, split, join, starts_with, read_lines,
  unify_newlines,
}
use cluster_size_operator_fo.Text.Number.{isdigit, is_digit}
use cluster_size_operator_fo.Text.Order.{sorted, insert_sorted, text_leb}
use cluster_size_operator_fo.Dict.{lookup, insert}
use cluster_size_operator_fo.Dedup.Records.{
  format_epoch_string, on_header, on_record, read_line, read_log, on_node, put_r, put_t,
  cluster_lines, output_for, output_lines,
}
use cluster_size_operator_fo.Dedup.Run.{read_files, deduplicate}
use cluster_size_operator_fo.TestLogs.{write_files}
use cluster_size_operator_fo.TestLogs.Recent.{lines_12, lines_13, lines_14, generate_test_logs}
use cluster_size_operator_fo.Tests.Data.{late}

abbrev names : List Text
names =
    codes "telemetry_2026-07-12.log"
    ∷ codes "telemetry_2026-07-13.log"
    ∷ codes "telemetry_2026-07-14.log"
    ∷ []

-- The lines of cluster A with the records of the first day, then those of cluster B of the second day with the
-- records of cluster A, then those of cluster C.
abbrev output : List Text
output =
    take 7 lines_14
    ++ (take 2 (drop 7 lines_12)
        ++ (take 5 (drop 8 lines_13) ++ (take 2 (drop 7 lines_14) ++ drop 9 lines_14)))

-- The `R` and `T` records that cluster A sent on the last two days go to cluster B, and cluster A keeps those
-- of the first day.
test_logs_misattributed : deduplicate late (generate_test_logs []) names ≡ some output
unfolding generate_test_logs write_files deduplicate read_files read_log read_line on_record
    on_header on_node put_r put_t output_lines output_for cluster_lines format_epoch_string isdigit
    is_digit join starts_with sorted insert_sorted text_leb lookup insert read_lines unify_newlines
    split strip lstrip rstrip is_space list_eq nat_eq
test_logs_misattributed = refl
