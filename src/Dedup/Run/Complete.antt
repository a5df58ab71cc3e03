-- ===== src/Dedup/Run/Complete.antt =====
-- A run that finds a file to read writes an output.
use cluster_size_operator_fo.Prelude.{
  ℕ, ◌≡◌, ◌≢◌, refl, ◌∙◌, true, some, List, [], ◌∷◌, list_eq, nat_eq, arith, All, Option, subst,
}
use cluster_size_operator_fo.Text.{Text, read_lines}
use cluster_size_operator_fo.Text.Order.{All-sorted, IsArranged}
use cluster_size_operator_fo.Dates.Stamp.{TimeError}
use cluster_size_operator_fo.Dict.{Dict, lookup, keys, has_key, or_else}
use cluster_size_operator_fo.Dict.Laws.{All-has_key, is_some-some}
use cluster_size_operator_fo.Lifecycle.{◌>>=◌}
use cluster_size_operator_fo.Dedup.Files.{
  all_log_files, log_names, select_files, files_in_range, last_of,
}
use cluster_size_operator_fo.Dedup.Records.{Snapshot, empty, read_log, output_lines}
use cluster_size_operator_fo.Dedup.Records.Format.{IsEarly, read_log-is_some}
use cluster_size_operator_fo.Dedup.Records.Output.{Blocks, output_lines-Blocks}
use cluster_size_operator_fo.Dedup.Run.{
  Job, written, outcome, read_files, deduplicate, rotated, process_files, process_all,
  parse_telemetry,
}

abbrev Stored : Dict Text Text → List Text → Type 0
Stored dir = All (λ f. has_key f dir ≡ true)

-- The lines of the file `f` are early.
abbrev pub EarlyFile : Dict Text Text → Text → Type 0
EarlyFile dir f = All IsEarly (read_lines (or_else (lookup f dir) []))

IsEarly-lines :
    (o : Option Text) (file : Text)
    → o ≡ some file
    → All IsEarly (read_lines (or_else o []))
    → All IsEarly (read_lines file)
IsEarly-lines o file e h = subst (λ p. All IsEarly (read_lines (or_else p []))) e h

read_files_total :
    (late : ℕ → TimeError) (dir : Dict Text Text) (names : List Text) (st : Snapshot)
    → All (EarlyFile dir) names
    → Stored dir names
    → (st' : Snapshot) × (read_files late dir names st ≡ some st')
unfolding read_files
read_files_total late dir [] st early h = (st, refl)
read_files_total late dir (name ∷ names) st (early, earlies) (h, hs) =
    let (file, e) = is_some-some (lookup name dir) h in
    let (st₁, f) =
      is_some-some (read_log late (read_lines file) st) (
        read_log-is_some late (read_lines file) st
          (IsEarly-lines (lookup name dir) file e early)) in
    let (st₂, g) = read_files_total late dir names st₁ earlies hs in
    (st₂, rw (e, ◌>>=◌, f, ◌>>=◌) g)

log_names-Stored :
    (dir : Dict Text Text) (names : List Text) → Stored dir names → Stored dir (log_names names)
unfolding log_names
log_names-Stored dir [] h = tt
log_names-Stored dir (n ∷ ns) (h, hs) = ground (arith, log_names-Stored dir ns hs)

last_of-Stored : (dir : Dict Text Text) (fs : List Text) → Stored dir fs → Stored dir (last_of fs)
last_of-Stored dir [] h = tt
last_of-Stored dir (f ∷ []) h = h
last_of-Stored dir (f ∷ g ∷ fs) (h, hs) = last_of-Stored dir (g ∷ fs) hs

range-Stored :
    (job : Job) (fs : List Text)
    → Stored job.log_dir fs
    → Stored job.log_dir (files_in_range job.start_date job.end_date fs)
unfolding files_in_range
range-Stored job [] h = tt
range-Stored job (f ∷ fs) (h, hs) = ground (arith, range-Stored job fs hs)

select_files-Stored :
    (job : Job) (fs : List Text)
    → Stored job.log_dir fs
    → Stored job.log_dir (select_files job.start_date job.end_date job.last_day_only fs)
unfolding select_files
select_files-Stored job fs h =
    ground (arith, last_of-Stored job.log_dir fs h, range-Stored job fs h)

process_files_found :
    (job : Job) (fs : List Text)
    → fs ≢ []
    → process_files job fs ≡ outcome (rotated job) (deduplicate job.late job.log_dir fs)
unfolding process_files
process_files_found job [] h = absurd (h refl)
process_files_found job (f ∷ fs) h = refl

select_files-nil : (job : Job) → select_files job.start_date job.end_date job.last_day_only [] ≡ []
unfolding select_files files_in_range
select_files-nil job = ground arith

process_all_found :
    (job : Job) (fs : List Text)
    → select_files job.start_date job.end_date job.last_day_only fs ≢ []
    → process_all job fs
      ≡ outcome (rotated job) (
          deduplicate job.late job.log_dir
            (select_files job.start_date job.end_date job.last_day_only fs))
unfolding process_all
process_all_found job [] h = absurd (h (select_files-nil job))
process_all_found job (f ∷ fs) h = process_files_found job _ h

written_output :
    (job : Job) (out fs : List Text) (st : Snapshot)
    → select_files job.start_date job.end_date job.last_day_only fs ≢ []
    → read_files job.late job.log_dir
        (select_files job.start_date job.end_date job.last_day_only fs)
        empty
      ≡ some st
    → output_lines st ≡ some out
    → process_all job fs ≡ written (rotated job) out
unfolding deduplicate
written_output job out fs st found reads writes =
    process_all_found job fs found ∙ rw (reads, ◌>>=◌, writes)

all_log_files-Stored : (dir : Dict Text Text) → Stored dir (all_log_files dir)
unfolding all_log_files
all_log_files-Stored dir =
    All-sorted (λ f. has_key f dir ≡ true) (log_names (keys dir))
      (log_names-Stored dir (keys dir) (All-has_key dir))

-- If some file is selected and no header in the selected files has a moment after the year 9999, the run
-- writes an output behind the rotation of the backups: the selected files are read, and the output is one
-- block of lines for each cluster that has a header then, in the order of the cluster ids.
pub parse_telemetry_complete :
    (job : Job)
    → All
        (EarlyFile job.log_dir)
        (select_files job.start_date job.end_date job.last_day_only (all_log_files job.log_dir))
    → select_files job.start_date job.end_date job.last_day_only (all_log_files job.log_dir) ≢ []
    → (st : Snapshot) × (out ids : List Text) × (read_files job.late job.log_dir
          (select_files job.start_date job.end_date job.last_day_only (all_log_files job.log_dir))
          empty
        ≡ some st)
      × (parse_telemetry job ≡ written (rotated job) out)
      × IsArranged (keys st.headers) ids
      × Blocks st ids out
unfolding parse_telemetry
parse_telemetry_complete job early found =
    let selected =
      select_files job.start_date job.end_date job.last_day_only (all_log_files job.log_dir) in
    let (st, reads) =
      read_files_total job.late job.log_dir selected empty early
        (select_files-Stored job (all_log_files job.log_dir) (all_log_files-Stored job.log_dir)) in
    let (out, ids, writes, arranged, blocks) = output_lines-Blocks st in
    (
      st,
      out,
      ids,
      reads,
      written_output job out (all_log_files job.log_dir) st found reads writes,
      arranged,
      blocks,
    )
