-- ===== src/Lifecycle/Load.antt =====
-- Loading the lifecycle file succeeds if no record is short of fields.
use cluster_size_operator_fo.Prelude.{
  ◌≡◌, ◌≤◌, ◌⊎◌, inl, inr, refl, true, none, some, List, [], ◌∷◌, list_eq, nat_eq, arith, All,
  length,
}
use cluster_size_operator_fo.Text.{Text}
use cluster_size_operator_fo.Dict.{lookup, insert, is_some}
use cluster_size_operator_fo.Dict.Laws.{is_some-some}
use cluster_size_operator_fo.Lifecycle.{
  Row, Lifecycle, dict_row, dict_rows, dict_reader, field, read_term, load_row, load_rows,
  load_lifecycle, ◌>>=◌,
}

-- No field is `None`.
abbrev IsFull : Row → Type 0
IsFull [] = Unit
IsFull ((k, v) ∷ row) = (is_some v ≡ true) × IsFull row

insert-IsFull : (k s : Text) (row : Row) → IsFull row → IsFull (insert k (some s) row)
unfolding insert
insert-IsFull k s [] h = (refl, tt)
insert-IsFull k s ((j, v) ∷ row) (h, hs) = ground (arith, insert-IsFull k s row hs)

dict_row-IsFull :
    (names fields : List Text) (row : Row)
    → length names ≤ length fields
    → IsFull row
    → IsFull (dict_row names fields row)
unfolding dict_row
dict_row-IsFull [] fields row h f = f
dict_row-IsFull (name ∷ names) [] row h f = absurd (omega arith)
dict_row-IsFull (name ∷ names) (s ∷ fields) row h f =
    dict_row-IsFull names fields (insert name (some s) row) (omega arith)
      (insert-IsFull name s row f)

field-is_some : (name : Text) (row : Row) → IsFull row → is_some (field name row) ≡ true
unfolding field lookup
field-is_some name [] f = refl
field-is_some name ((k, none) ∷ row) (f, fs) = cc
field-is_some name ((k, some s) ∷ row) (f, fs) = ground (arith, field-is_some name row fs)

read_term-is_some : (row : Row) → IsFull row → is_some (read_term row) ≡ true
unfolding read_term
read_term-is_some row f = grind (arith, field-is_some)

load_row-is_some :
    (lifecycle : Lifecycle) (row : Row) → IsFull row → is_some (load_row lifecycle row) ≡ true
unfolding load_row
load_row-is_some lifecycle row f = grind (arith, field-is_some, read_term-is_some)

load_rows-is_some :
    (rows : List Row) (lifecycle : Lifecycle)
    → All IsFull rows
    → is_some (load_rows rows lifecycle) ≡ true
unfolding load_rows
load_rows-is_some [] lifecycle h = refl
load_rows-is_some (row ∷ rows) lifecycle (h, hs) =
    let (l, e) = is_some-some (load_row lifecycle row) (load_row-is_some lifecycle row h) in
    rw (e, ◌>>=◌) (load_rows-is_some rows l hs)

dict_rows-IsFull :
    (names : List Text) (records : List (List Text))
    → All (λ fields. (fields ≡ []) ⊎ (length names ≤ length fields)) records
    → All IsFull (dict_rows names records)
unfolding dict_rows
dict_rows-IsFull names [] h = tt
dict_rows-IsFull names ([] ∷ records) (h, hs) = dict_rows-IsFull names records hs
dict_rows-IsFull names ((f ∷ fields) ∷ records) (inl e, hs) = absurd (cc)
dict_rows-IsFull names ((f ∷ fields) ∷ records) (inr h, hs) =
    (dict_row-IsFull names (f ∷ fields) [] h tt, dict_rows-IsFull names records hs)

-- If every record behind the first is empty or has a field for each name of the first, the file loads.
pub load_lifecycle_total :
    (names : List Text) (records : List (List Text))
    → All (λ fields. (fields ≡ []) ⊎ (length names ≤ length fields)) records
    → (lifecycle : Lifecycle) × (load_lifecycle (some (names ∷ records)) ≡ some lifecycle)
unfolding load_lifecycle dict_reader
load_lifecycle_total names records h =
    is_some-some (load_rows (dict_rows names records) [])
      (load_rows-is_some (dict_rows names records) [] (dict_rows-IsFull names records h))
