-- ===== src/Dedup/Backups.antt =====
-- `rotate_old_file`: a backup of the old output, and the removal of all but the ten newest backups.
pub mod Newest
use cluster_size_operator_fo.Prelude.{
  ℕ, ◌-◌, Bool, Option, none, some, List, [], ◌∷◌, ◌++◌, ◌==◌, list_eq, nat_eq, leb, length, take,
  drop, if◌then◌else◌,
}
use cluster_size_operator_fo.Text.{Text, codes}

pub record Backup : Type 0 where
  pub name : Text
  pub mtime : ℕ

abbrev pub backup_retention : ℕ
backup_retention = 10

-- `f"{filepath}_{timestamp}.bak"`
abbrev pub backup_name : Text → Text → Text
backup_name filepath timestamp = filepath ++ (codes "_" ++ (timestamp ++ codes ".bak"))

-- `shutil.copy2` onto a name: a backup of that name is replaced, and the copy keeps the time of the file.
unfoldable pub copy_to : Backup → List Backup → List Backup
copy_to b [] = b ∷ []
copy_to b (c ∷ cs) = let rest = copy_to b cs in if b.name == c.name then b ∷ cs else c ∷ rest

unfoldable pub insert_by_mtime : Backup → List Backup → List Backup
insert_by_mtime b [] = b ∷ []
insert_by_mtime b (c ∷ cs) =
    let rest = insert_by_mtime b cs in if leb b.mtime c.mtime then b ∷ c ∷ cs else c ∷ rest

-- `sorted(backups, key=os.path.getmtime)`
unfoldable pub sort_by_mtime : List Backup → List Backup
sort_by_mtime [] = []
sort_by_mtime (b ∷ bs) = insert_by_mtime b (sort_by_mtime bs)

-- `existing_backups[:-BACKUP_RETENTION]`, and the rest
unfoldable pub expired : List Backup → List Backup
expired bs = take (length bs - backup_retention) (sort_by_mtime bs)

unfoldable pub newest : List Backup → List Backup
newest bs = drop (length bs - backup_retention) (sort_by_mtime bs)

-- The backups that `os.remove` fails on stay.
unfoldable pub undeleted : (Text → Bool) → List Backup → List Backup
undeleted removable [] = []
undeleted removable (b ∷ bs) =
    let rest = undeleted removable bs in if removable b.name then rest else b ∷ rest

-- The backups in the folder, after a run; `mtime` is that of the old output, if there is one.
unfoldable pub rotate_old_file : (Text → Bool) → Text → Text → Option ℕ → List Backup → List Backup
rotate_old_file removable filepath timestamp none bs = bs
rotate_old_file removable filepath timestamp (some mtime) bs =
    let existing = copy_to (record { name = backup_name filepath timestamp; mtime = mtime }) bs in
    if leb (length existing) backup_retention
    then existing
    else undeleted removable (expired existing) ++ newest existing
