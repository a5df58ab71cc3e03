-- ===== src/Dedup/Files.antt =====
-- Which log files are read. A directory is a dictionary from the names of its files to their contents.
pub mod Range
use cluster_size_operator_fo.Prelude.{
  ℕ, zero, suc, ◌-◌, Bool, true, false, ◌&&◌, ◌||◌, ◌==◌, list_eq, nat_eq, drop, Option, none, some,
  List, [], ◌∷◌, length, if◌then◌else◌,
}
use cluster_size_operator_fo.Text.{Text, codes, split, starts_with}
use cluster_size_operator_fo.Text.Order.{sorted}
use cluster_size_operator_fo.Dates.{Date, date_leb, strptime}
use cluster_size_operator_fo.Dict.{Dict, keys, last, or_else}

-- `s.replace(sub, "")` for a text `sub` that is not empty; `skip` characters belong to a match.
unfoldable pub without : Text → ℕ → Text → Text
without sub skip [] = []
without sub zero (c ∷ s) =
    let rest = without sub (length sub - 1) s in
    let next = without sub zero s in if starts_with sub (c ∷ s) then rest else c ∷ next
without sub (suc skip) (c ∷ s) = without sub skip s

-- `get_file_date`, for a file of the log directory by its name
unfoldable pub get_file_date : Text → Option Date
get_file_date name = strptime (without (codes ".log") 0 (or_else (last (split b'_' name)) []))

-- `s.endswith(suffix)`
unfoldable pub ends_with : Text → Text → Bool
ends_with suffix [] = suffix == []
ends_with suffix (c ∷ s) = suffix == (c ∷ s) || ends_with suffix s

-- The pattern `telemetry_*.log`
unfoldable pub is_log_name : Text → Bool
is_log_name name = starts_with (codes "telemetry_") name && ends_with (codes ".log") (drop 10 name)

unfoldable pub log_names : List Text → List Text
log_names [] = []
log_names (name ∷ names) =
    let rest = log_names names in if is_log_name name then name ∷ rest else rest

-- `sorted(glob.glob(os.path.join(LOG_DIR, "telemetry_*.log")))`. The paths have one folder in common,
-- so they are ordered by their names.
unfoldable pub all_log_files : Dict Text Text → List Text
all_log_files dir = sorted (log_names (keys dir))

abbrev pub from_start : Option Date → Date → Bool
from_start none d = true
from_start (some s) d = date_leb s d

abbrev pub to_end : Option Date → Date → Bool
to_end none d = true
to_end (some e) d = date_leb d e

-- Whether the loop over the files keeps a file.
unfoldable pub in_range : Option Date → Option Date → Option Date → Bool
in_range start_date end_date none = false
in_range start_date end_date (some d) = from_start start_date d && to_end end_date d

unfoldable pub files_in_range : Option Date → Option Date → List Text → List Text
files_in_range start_date end_date [] = []
files_in_range start_date end_date (f ∷ fs) =
    let rest = files_in_range start_date end_date fs in
    if in_range start_date end_date (get_file_date f) then f ∷ rest else rest

abbrev pub last_of : List Text → List Text
last_of fs = elim (last fs) [ none ↦ [] | some f ↦ f ∷ [] ]

-- `log_files_to_process`
unfoldable pub select_files : Option Date → Option Date → Bool → List Text → List Text
select_files start_date end_date last_day_only fs =
    if last_day_only then last_of fs else files_in_range start_date end_date fs
