-- ===== src/Lifecycle.antt =====
-- `load_lifecycle` and `evaluate_term` of telemetry_receiver/evaluate_compliance.py: the dates of the
-- EUS terms of each release, and whether a term is active in a range of dates.
-- The records that `csv.reader` cuts the file into are the input; `csv.DictReader` is modelled.
pub mod Load
pub mod Overlap
use cluster_size_operator_fo.Prelude.{
  ℕ, Bool, true, false, ◌&&◌, ◌||◌, Option, none, some, List, [], ◌∷◌, ◌++◌, list_eq, nat_eq,
  if◌then◌else◌,
}
use cluster_size_operator_fo.Text.{Text, codes, strip, is_nil}
use cluster_size_operator_fo.Text.Number.{show}
use cluster_size_operator_fo.Dates.{Date, date_leb, strptime}
use cluster_size_operator_fo.Dict.{Dict, lookup, insert, or_else}

-- A row of the `DictReader`: a field that the record lacks is `None`.
abbrev pub Row : Type 0
Row = Dict Text (Option Text)

unfoldable pub dict_row : List Text → List Text → Row → Row
dict_row [] fields row = row
dict_row (name ∷ names) [] row = dict_row names [] (insert name none row)
dict_row (name ∷ names) (f ∷ fields) row = dict_row names fields (insert name (some f) row)

-- Records without a field are passed over.
unfoldable pub dict_rows : List Text → List (List Text) → List Row
dict_rows names [] = []
dict_rows names ([] ∷ records) = dict_rows names records
dict_rows names ((f ∷ fields) ∷ records) = dict_row names (f ∷ fields) [] ∷ dict_rows names records

-- The first record names the fields.
unfoldable pub dict_reader : List (List Text) → List Row
dict_reader [] = []
dict_reader (names ∷ records) = dict_rows names records

-- `row.get(name, "").strip()`; `none` is the `AttributeError` at a `None`.
unfoldable pub field : Text → Row → Option Text
field name row = elim (lookup name row) [
  | none ↦ some []
  | some none ↦ none
  | some (some s) ↦ some (strip s)
]

infixl 5 ◌>>=◌
abbrev pub ◌>>=◌ {ℓ κ} : {A : Type ℓ} {B : Type κ} → Option A → (A → Option B) → Option B
none >>= f = none
some a >>= f = f a

-- The six dates of a release, under their names.
abbrev pub Term : Type 0
Term = Dict Text Text

abbrev pub Lifecycle : Type 0
Lifecycle = Dict Text Term

unfoldable pub read_term : Row → Option Term
read_term row = do
  a ← field (codes "t1_start") row
  b ← field (codes "t1_end") row
  c ← field (codes "t2_start") row
  d ← field (codes "t2_end") row
  e ← field (codes "t3_start") row
  f ← field (codes "t3_end") row
  some (
      (codes "t1_start", a)
      ∷ (codes "t1_end", b)
      ∷ (codes "t2_start", c)
      ∷ (codes "t2_end", d)
      ∷ (codes "t3_start", e)
      ∷ (codes "t3_end", f)
      ∷ [])

-- The loop's body.
unfoldable pub load_row : Lifecycle → Row → Option Lifecycle
load_row lifecycle row = do
  ver ← field (codes "major_minor") row
  if is_nil ver then some lifecycle else do t ← read_term row; some (insert ver t lifecycle)

unfoldable pub load_rows : List Row → Lifecycle → Option Lifecycle
load_rows [] lifecycle = some lifecycle
load_rows (row ∷ rows) lifecycle = do l ← load_row lifecycle row; load_rows rows l

-- The argument is `none` if the path is empty or names no file; the result is `none` if an
-- `AttributeError` leaves the function.
unfoldable pub load_lifecycle : Option (List (List Text)) → Option Lifecycle
load_lifecycle none = some []
load_lifecycle (some records) = load_rows (dict_reader records) []

-- `f"t{term_num}_start"` and `f"t{term_num}_end"`
abbrev pub start_key : ℕ → Text
start_key n = codes "t" ++ (show n ++ codes "_start")

abbrev pub end_key : ℕ → Text
end_key n = codes "t" ++ (show n ++ codes "_end")

-- The test of the two dates; each `none` is a `ValueError`.
unfoldable pub overlaps : Option Date → Option Date → Date → Date → Bool
overlaps (some t_start) (some t_end) range_start range_end =
    date_leb t_start range_end && date_leb range_start t_end
overlaps _ _ range_start range_end = false

unfoldable pub term_active : Option Text → Option Text → Date → Date → Bool
term_active (some (c ∷ s)) (some (d ∷ e)) range_start range_end =
    overlaps (strptime (c ∷ s)) (strptime (d ∷ e)) range_start range_end
term_active _ _ range_start range_end = false

unfoldable pub evaluate_term : Lifecycle → Text → ℕ → Date → Date → Bool
evaluate_term lifecycle major_minor term_num range_start range_end =
    elim (lookup major_minor lifecycle) [
      | none ↦ false
      | some ref ↦
          term_active (lookup (start_key term_num) ref) (lookup (end_key term_num) ref) range_start
            range_end
    ]
