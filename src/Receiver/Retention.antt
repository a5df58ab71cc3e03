-- ===== src/Receiver/Retention.antt =====
-- `run_retention_cleanup`: the removal of old log files. Times are whole seconds. The folder is the list
-- of its entries, and `removable` says which of them `os.remove` removes.
pub mod Exact
use cluster_size_operator_fo.Prelude.{
  ℕ, zero, suc, ◌+◌, ◌-◌, ◌*◌, Bool, true, false, Option, none, some, List, [], ◌∷◌, ltb,
  if◌then◌else◌,
}
use cluster_size_operator_fo.Prelude.Int.{ℤ, pos, negsuc, pos_part, neg_part, ◌-ℤ◌}
use cluster_size_operator_fo.Text.{Text}

-- An entry of the folder; `mtime` is `none` where `getmtime` raises an exception.
pub record LogEntry : Type 0 where
  pub filename : Text
  pub is_file : Bool
  pub mtime : Option ℕ

-- `args.retention * 24 * 60 * 60`
abbrev pub retention_seconds : ℤ → ℤ
retention_seconds (pos days) = pos (days * 24 * 60 * 60)
retention_seconds (negsuc days) = negsuc (suc days * 24 * 60 * 60 - 1)

abbrev pub ltb_int : ℤ → ℤ → Bool
ltb_int a b = ltb (pos_part a + neg_part b) (pos_part b + neg_part a)

-- `now - mtime > RETENTION_SECONDS`
unfoldable pub is_obsolete : ℕ → ℤ → ℕ → Bool
is_obsolete now seconds mtime = ltb_int seconds (pos now -ℤ pos mtime)

-- The entries that are left, the number of those that were removed, and whether an exception ended the loop.
pub record Cleaned : Type 0 where
  pub remaining : List LogEntry
  pub deleted_count : ℕ
  pub raised : Bool

abbrev pub keep_entry : LogEntry → Cleaned → Cleaned
keep_entry f c = record {
  remaining = f ∷ c.remaining;
  deleted_count = c.deleted_count;
  raised = c.raised;
}

abbrev pub count_deleted : Cleaned → Cleaned
count_deleted c = record {
  remaining = c.remaining;
  deleted_count = suc c.deleted_count;
  raised = c.raised;
}

abbrev stop_at : List LogEntry → Cleaned
stop_at files = record { remaining = files; deleted_count = 0; raised = true }

-- One round of the loop, for an entry with its time and the rounds behind it.
unfoldable pub clean_entry :
    (Text → Bool) → ℕ → ℤ → LogEntry → List LogEntry → Option ℕ → Cleaned → Cleaned
clean_entry removable now seconds f files none rest =
    if f.is_file then stop_at (f ∷ files) else keep_entry f rest
clean_entry removable now seconds f files (some mtime) rest =
    if f.is_file
    then if is_obsolete now seconds mtime
      then if removable f.filename then count_deleted rest else keep_entry f rest
      else keep_entry f rest
    else keep_entry f rest

unfoldable pub run_retention_cleanup : (Text → Bool) → ℕ → ℤ → List LogEntry → Cleaned
run_retention_cleanup removable now seconds [] = record {
  remaining = [];
  deleted_count = 0;
  raised = false;
}
run_retention_cleanup removable now seconds (f ∷ files) =
    let rest = run_retention_cleanup removable now seconds files in
    clean_entry removable now seconds f files f.mtime rest
