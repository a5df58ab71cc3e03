-- ===== src/Tests/Dedup.antt =====
-- The theorems on `deduplicate_telemetry.py` at concrete inputs.
use mathlib.Core.List.{Memᴰ}
use cluster_size_operator_fo.Prelude.{
  ℕ, ◌≡◌, ◌≢◌, ◌↔◌, ◌≤◌, ◌+◌, refl, ap, get_or, arith, All, true, false, none, some, List, [], ◌∷◌,
  length, nat_eq, list_eq,
}
use cluster_size_operator_fo.Text.{Text, codes, read_lines, split, strip, starts_with, join}
use cluster_size_operator_fo.Text.Number.{digits_value, isdigit, is_digit, count_of, read_digits}
use cluster_size_operator_fo.Text.Order.{sorted, IsArranged}
use cluster_size_operator_fo.Dates.{iso, days_in_month, is_leap}
use cluster_size_operator_fo.Dates.Moment.{IsMoment}
use cluster_size_operator_fo.Dedup.Records.Moment.{format_epoch_string-IsMoment}
use cluster_size_operator_fo.Dates.Iso.{IsDate}
use cluster_size_operator_fo.Dates.Stamp.{
  from_timestamp, stamp, date_of_days, find_date, find_month, year_length,
}
use cluster_size_operator_fo.Dict.{lookup, insert, keys}
use cluster_size_operator_fo.Compliance.Ingest.{part}
use cluster_size_operator_fo.Compliance.Ingest.Reset.{fields}
use cluster_size_operator_fo.Dedup.Files.{
  get_file_date, log_names, is_log_name, ends_with, select_files, all_log_files,
}
use cluster_size_operator_fo.Dedup.Files.Range.{
  log_name, get_file_date-log_name, IsInRange, select_files_range,
}
use cluster_size_operator_fo.Dedup.Backups.{Backup, rotate_old_file, newest, expired}
use cluster_size_operator_fo.Dedup.Backups.Newest.{length-rotate_old_file, expired-newest}
use cluster_size_operator_fo.Dedup.Records.{
  Snapshot, empty, format_epoch_string, read_log, output_lines,
}
use cluster_size_operator_fo.Dedup.Records.Lines.{IsRecord, cluster_of, dated}
use cluster_size_operator_fo.Dedup.Records.Latest.{WithNodes, stripped, read_log_snapshot}
use cluster_size_operator_fo.Dedup.Records.Misattribution.{returning_cluster_misattributed}
use cluster_size_operator_fo.Dedup.Records.Output.{Blocks, output_lines-Blocks}
use cluster_size_operator_fo.Dedup.Records.Format.{is_early}
use cluster_size_operator_fo.Dedup.Run.{Job, written, rotated, read_files, parse_telemetry}
use cluster_size_operator_fo.Dedup.Run.Complete.{EarlyFile, parse_telemetry_complete}
use cluster_size_operator_fo.Tests.Data.{
  header_record, node_record, lookup_record, signature_record, first_day, late,
}

header_record-IsRecord : IsRecord (codes "H") 8 header_record
unfolding strip split starts_with nat_eq
header_record-IsRecord = record { solid = refl; no_comment = refl; tagged = refl; long = refl }

node_record-IsRecord : IsRecord (codes "N") 2 node_record
unfolding strip split starts_with nat_eq
node_record-IsRecord = record { solid = refl; no_comment = refl; tagged = refl; long = refl }

lookup_record-IsRecord : IsRecord (codes "R") 0 lookup_record
unfolding strip split starts_with nat_eq
lookup_record-IsRecord = record { solid = refl; no_comment = refl; tagged = refl; long = refl }

signature_record-IsRecord : IsRecord (codes "T") 0 signature_record
unfolding strip split starts_with nat_eq
signature_record-IsRecord = record { solid = refl; no_comment = refl; tagged = refl; long = refl }

header_cluster : cluster_of header_record ≡ codes "c1"
unfolding strip split nat_eq
header_cluster = refl

node_cluster : cluster_of node_record ≡ codes "c1"
unfolding strip split nat_eq
node_cluster = refl

installed :
    format_epoch_string late (part (fields header_record) 4)
    ≡ some (codes "1970-01-01 00:00:00 UTC")
unfolding format_epoch_string strip split nat_eq isdigit is_digit count_of read_digits
    from_timestamp stamp iso join date_of_days find_date find_month year_length days_in_month
    is_leap
installed = refl

updated :
    format_epoch_string late (part (fields header_record) 6)
    ≡ some (codes "1970-01-01 00:00:00 UTC")
unfolding format_epoch_string strip split nat_eq isdigit is_digit count_of read_digits
    from_timestamp stamp iso join date_of_days find_date find_month year_length days_in_month
    is_leap
updated = refl

abbrev epoch_start : Text
epoch_start = codes "1970-01-01 00:00:00 UTC"

read_log_snapshot_example :
    (st' : Snapshot) × (read_log late (header_record ∷ node_record ∷ []) empty ≡ some st')
    × (st'.headers
        ≡ insert (codes "c1") (dated (fields header_record) epoch_start epoch_start) empty.headers)
    × WithNodes (codes "c1") (stripped (node_record ∷ [])) empty st'
read_log_snapshot_example =
    read_log_snapshot late (codes "c1") header_record epoch_start epoch_start (node_record ∷ [])
      empty header_record-IsRecord header_cluster installed updated
      ((node_record-IsRecord, node_cluster), tt)

abbrev two_clusters : Snapshot
two_clusters = record {
  headers = (codes "c1", header_record) ∷ (codes "c0", codes "H,c0") ∷ [];
  nodes = [];
  r_records = (codes "c0", codes "R,c0") ∷ [];
  t_records = (codes "c0", codes "T,c0") ∷ [];
}

names_differ : codes "c1" ≢ codes "c0"
names_differ h = omega (arith, ap (λ (s : Text). get_or s 1 0) h)

returning_cluster_misattributed_example :
    (st' : Snapshot) × (read_log late
        (header_record ∷ lookup_record ∷ signature_record ∷ [])
        two_clusters
      ≡ some st')
    × (lookup (codes "c0") st'.r_records ≡ some (strip lookup_record))
    × (lookup (codes "c0") st'.t_records ≡ some (strip signature_record))
    × (lookup (codes "c1") st'.r_records ≡ lookup (codes "c1") two_clusters.r_records)
    × (lookup (codes "c1") st'.t_records ≡ lookup (codes "c1") two_clusters.t_records)
unfolding lookup nat_eq list_eq
returning_cluster_misattributed_example =
    returning_cluster_misattributed late (codes "c1") (codes "c0") header_record lookup_record
      signature_record epoch_start epoch_start two_clusters refl refl names_differ
      header_record-IsRecord header_cluster installed updated lookup_record-IsRecord
      signature_record-IsRecord

output_lines-Blocks_example :
    (out ids : List Text) × (output_lines two_clusters ≡ some out)
    × IsArranged (keys two_clusters.headers) ids
    × Blocks two_clusters ids out
output_lines-Blocks_example = output_lines-Blocks two_clusters

stripped_zero : strip (codes "0") ≡ codes "0"
unfolding strip nat_eq
stripped_zero = refl

formatted_zero : format_epoch_string late (codes "0") ≡ some epoch_start
unfolding format_epoch_string strip nat_eq isdigit is_digit count_of read_digits from_timestamp
    stamp iso join date_of_days find_date find_month year_length days_in_month is_leap
formatted_zero = refl

first_day-IsDate : IsDate first_day
unfolding days_in_month
first_day-IsDate = record {
  year_low = omega arith;
  year_high = omega arith;
  month_low = omega arith;
  month_high = omega arith;
  day_low = omega arith;
  day_high = ground arith;
}

get_file_date-log_name_example : get_file_date (log_name first_day) ≡ some first_day
get_file_date-log_name_example = get_file_date-log_name first_day first_day-IsDate

abbrev files : List Text
files = codes "telemetry_2024-12-31.log" ∷ codes "telemetry_2025-01-01.log" ∷ []

select_files_range_example :
    Memᴰ (codes "telemetry_2025-01-01.log") (select_files (some first_day) none false files) ↔ (
      Memᴰ (codes "telemetry_2025-01-01.log") files
      × IsInRange (some first_day) none (codes "telemetry_2025-01-01.log"))
select_files_range_example =
    select_files_range (some first_day) none files (codes "telemetry_2025-01-01.log")

abbrev backup : ℕ → Backup
backup n = record { name = (b'0' + n) ∷ []; mtime = n }

abbrev backups : List Backup
backups =
    backup 3
    ∷ backup 1
    ∷ backup 2
    ∷ backup 4
    ∷ backup 5
    ∷ backup 6
    ∷ backup 7
    ∷ backup 8
    ∷ backup 9
    ∷ backup 10
    ∷ backup 11
    ∷ []

length-rotate_old_file_example :
    length
      (rotate_old_file (λ name. true) (codes "out.log") (codes "20250101_000000") (some 12) backups)
    ≤ 10
length-rotate_old_file_example =
    length-rotate_old_file (codes "out.log") (codes "20250101_000000") 12 backups

expired-newest_example : All (λ b. All (λ c. b.mtime ≤ c.mtime) (newest backups)) (expired backups)
expired-newest_example = expired-newest backups

abbrev job : Job
job = record {
  start_date = none;
  end_date = none;
  last_day_only = true;
  output_file = codes "out.log";
  log_dir = (codes "telemetry_2025-01-01.log", header_record) ∷ [];
  old_output = some 12;
  backups = backups;
  timestamp = codes "20250101_000000";
  removable = λ name. true;
  late = late;
}

job_files :
    select_files job.start_date job.end_date job.last_day_only (all_log_files job.log_dir)
    ≡ codes "telemetry_2025-01-01.log" ∷ []
unfolding select_files all_log_files nat_eq list_eq sorted log_names is_log_name starts_with
    ends_with
job_files = refl

early_header : is_early header_record ≡ true
unfolding strip split nat_eq isdigit is_digit count_of read_digits list_eq
early_header = refl

job_file : read_lines header_record ≡ header_record ∷ []
unfolding read_lines nat_eq
job_file = refl

job-EarlyFile : EarlyFile job.log_dir (codes "telemetry_2025-01-01.log")
unfolding lookup nat_eq list_eq
job-EarlyFile = rw job_file (early_header, tt)

parse_telemetry_complete_example :
    (st : Snapshot) × (out ids : List Text) × (read_files job.late job.log_dir
        (select_files job.start_date job.end_date job.last_day_only (all_log_files job.log_dir))
        empty
      ≡ some st)
    × (parse_telemetry job ≡ written (rotated job) out)
    × IsArranged (keys st.headers) ids
    × Blocks st ids out
parse_telemetry_complete_example =
    parse_telemetry_complete job (rw job_files (job-EarlyFile, tt)) (rw job_files cc)

epoch_digits : isdigit (codes "1735689600") ≡ true
unfolding isdigit is_digit
epoch_digits = refl

format_epoch_string-IsMoment_example :
    (w : Text) × (format_epoch_string late (codes "1735689600") ≡ some w)
    × IsMoment (digits_value 0 (codes "1735689600")) w
format_epoch_string-IsMoment_example =
    format_epoch_string-IsMoment late (codes "1735689600") epoch_digits (omega arith)
