-- ===== src/Dedup/Backups/Newest.antt =====
-- At most ten backups are left, the newest.
use cluster_size_operator_fo.Prelude.{
  ℕ, zero, suc, ◌-◌, ◌≡◌, ◌≤◌, refl, ap, ◌∙◌, true, some, List, [], ◌∷◌, ◌++◌, length, take, drop,
  length-append, length-drop, All, All-map_imp, arith,
}
use cluster_size_operator_fo.Text.{Text}
use cluster_size_operator_fo.Dedup.Backups.{
  Backup, backup_name, copy_to, insert_by_mtime, sort_by_mtime, expired, newest, undeleted,
  rotate_old_file,
}

length-insert_by_mtime :
    (b : Backup) (bs : List Backup) → length (insert_by_mtime b bs) ≡ suc (length bs)
unfolding insert_by_mtime
length-insert_by_mtime b [] = refl
length-insert_by_mtime b (c ∷ cs) = ground (arith, length-insert_by_mtime b cs)

length-sort_by_mtime : (bs : List Backup) → length (sort_by_mtime bs) ≡ length bs
unfolding sort_by_mtime
length-sort_by_mtime [] = refl
length-sort_by_mtime (b ∷ bs) =
    length-insert_by_mtime b (sort_by_mtime bs) ∙ ap suc (length-sort_by_mtime bs)

length-undeleted : (bs : List Backup) → length (undeleted (λ name. true) bs) ≡ 0
unfolding undeleted
length-undeleted [] = refl
length-undeleted (b ∷ bs) = length-undeleted bs

length-newest : (bs : List Backup) → length (newest bs) ≤ 10
unfolding newest
length-newest bs =
    omega (arith, length-drop (length bs - 10) (sort_by_mtime bs), length-sort_by_mtime bs)

length-kept : (bs : List Backup) → length (undeleted (λ name. true) (expired bs) ++ newest bs) ≤ 10
length-kept bs = omega (
  arith,
  length-append (undeleted (λ name. true) (expired bs)) (newest bs),
  length-undeleted (expired bs),
  length-newest bs,
)

-- If the old output is there and every removal succeeds, at most ten backups are left.
pub length-rotate_old_file :
    (filepath timestamp : Text) (mtime : ℕ) (bs : List Backup)
    → length (rotate_old_file (λ name. true) filepath timestamp (some mtime) bs) ≤ 10
unfolding rotate_old_file
length-rotate_old_file filepath timestamp mtime bs =
    let existing : List Backup =
      copy_to (record { name = backup_name filepath timestamp; mtime = mtime }) bs in
    ground (arith, length-kept existing)

abbrev Older : ℕ → List Backup → Type 0
Older n = All (λ c. n ≤ c.mtime)

-- Each backup is at most as new as every one behind it.
abbrev IsByAge : List Backup → Type 0
IsByAge [] = Unit
IsByAge (b ∷ bs) = Older b.mtime bs × IsByAge bs

Older-insert :
    (n : ℕ) (b : Backup) (bs : List Backup)
    → n ≤ b.mtime
    → Older n bs
    → Older n (insert_by_mtime b bs)
unfolding insert_by_mtime
Older-insert n b [] h hs = (h, tt)
Older-insert n b (c ∷ cs) h (hc, hs) = ground (arith, Older-insert n b cs h hs)

Older-weaken : (m n : ℕ) (bs : List Backup) → m ≤ n → Older n bs → Older m bs
Older-weaken m n bs h = All-map_imp _ _ bs (λ c k. omega arith)

insert-IsByAge : (b : Backup) (bs : List Backup) → IsByAge bs → IsByAge (insert_by_mtime b bs)
unfolding insert_by_mtime
insert-IsByAge b [] h = (tt, tt)
insert-IsByAge b (c ∷ cs) (h, hs) =
    ground
      (arith, insert-IsByAge b cs hs, Older-insert c.mtime b cs, Older-weaken b.mtime c.mtime cs)

sort-IsByAge : (bs : List Backup) → IsByAge (sort_by_mtime bs)
unfolding sort_by_mtime
sort-IsByAge [] = tt
sort-IsByAge (b ∷ bs) = insert-IsByAge b (sort_by_mtime bs) (sort-IsByAge bs)

Older-drop : (n k : ℕ) (bs : List Backup) → Older n bs → Older n (drop k bs)
Older-drop n zero bs h = h
Older-drop n (suc k) [] h = tt
Older-drop n (suc k) (b ∷ bs) (h, hs) = Older-drop n k bs hs

take-drop-age :
    (k : ℕ) (bs : List Backup) → IsByAge bs → All (λ b. Older b.mtime (drop k bs)) (take k bs)
take-drop-age zero bs h = tt
take-drop-age (suc k) [] h = tt
take-drop-age (suc k) (b ∷ bs) (h, hs) = (Older-drop b.mtime k bs h, take-drop-age k bs hs)

-- No backup that is to be removed is newer than one that is kept.
pub expired-newest :
    (bs : List Backup) → All (λ b. All (λ c. b.mtime ≤ c.mtime) (newest bs)) (expired bs)
unfolding expired newest
expired-newest bs = take-drop-age (length bs - 10) (sort_by_mtime bs) (sort-IsByAge bs)
