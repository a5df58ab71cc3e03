-- ===== src/Compliance/Report/Shape.antt =====
-- The report is written whole: which records it has.
use cluster_size_operator_fo.Prelude.{
  ◌≡◌, refl, sym, ◌∙◌, ap, true, Option, some, List, [], ◌∷◌, ◌++◌, contains, list_eq, nat_eq, All,
  Option-cases, inl, inr, arith,
}
use cluster_size_operator_fo.Text.{Text, codes}
use cluster_size_operator_fo.Dict.{has_key, keys, lookup}
use cluster_size_operator_fo.Dict.Laws.{contains-keys}
use cluster_size_operator_fo.Lifecycle.{◌>>=◌}
use cluster_size_operator_fo.Subscriptions.{Subs, initial_subs, load_subscriptions}
use cluster_size_operator_fo.Subscriptions.Laws.{keys-load_subscriptions}
use cluster_size_operator_fo.Compliance.Rows.{EvaluatedRow}
use cluster_size_operator_fo.Compliance.Groups.{Group, aggr_groups, available, gap, grand_total}
use cluster_size_operator_fo.Compliance.Report.{
  Cell, csv_header, available_cells, gap_cells, node_part, total_part, available_part, gap_part,
  report,
}
use cluster_size_operator_fo.Compliance.Report.Columns.{
  Supply, supplies, amount, supplied, IsNodeRecord, IsTotalRecord, IsAvailableRecord, IsGapRecord,
}
use cluster_size_operator_fo.Compliance.Report.Filled.{
  node_cells-IsNodeRecord, total_cells-IsTotalRecord, available_cells-IsAvailableRecord,
  gap_cells-IsGapRecord,
}

-- All keys that the report reads are there.
pub record HasCounts (subs : Subs) : Type 0 where
  pub same_keys : keys subs ≡ keys initial_subs

has_count :
    (subs : Subs) (k : Text)
    → HasCounts subs
    → has_key k initial_subs ≡ true
    → has_key k subs ≡ true
has_count subs k h e =
    sym (contains-keys k subs)
    ∙ ap (λ ks. contains ks k) h.same_keys
    ∙ contains-keys k initial_subs
    ∙ e

-- A record for each item, in their order.
pub data EachOf {A : Type 0} (P : A → List Cell → Type 0) : List A → List (List Cell) → Type 0 where
  no_more : EachOf P [] []
  next :
      {x : A} {xs : List A} {cells : List Cell} {rest : List (List Cell)}
      → P x cells
      → EachOf P xs rest
      → EachOf P (x ∷ xs) (cells ∷ rest)

-- The records of a report on `rows`.
pub record IsReport (subs : Subs) (rows : List EvaluatedRow) (records : List (List Cell))
    : Type 0 where
  pub nodes : List (List Cell)
  pub totals : List (List Cell)
  pub avails : List (List Cell)
  pub gaps : List (List Cell)
  pub parts : records ≡ csv_header ∷ (nodes ++ (totals ++ (avails ++ gaps)))
  pub of_nodes : EachOf IsNodeRecord rows nodes
  pub of_groups : EachOf (λ s. IsTotalRecord rows s.group) supplies totals
  pub of_avails : EachOf (IsAvailableRecord subs) supplies avails
  pub of_gaps : EachOf (IsGapRecord subs rows) supplies gaps

amount_present :
    (subs : Subs) (k : Text) → has_key k subs ≡ true → lookup k subs ≡ some (amount subs (some k))
amount_present subs k h = elim (Option-cases (lookup k subs)) [
  | inl e ↦ absurd (ground arith)
  | inr (n, e) ↦ rw (e) refl
]

held :
    (subs : Subs) (k : Text)
    → HasCounts subs
    → has_key k initial_subs ≡ true
    → lookup k subs ≡ some (amount subs (some k))
held subs k h e = amount_present subs k (has_count subs k h e)

-- The numbers of a group are those of its keys.
abbrev IsSupplied : Subs → Supply → Type 0
IsSupplied subs s = available subs s.group ≡ some (supplied subs s)

supplies-IsSupplied : (subs : Subs) → HasCounts subs → All (IsSupplied subs) supplies
unfolding available lookup list_eq nat_eq
supplies-IsSupplied subs h = (
  rw
      (
        held subs (codes "standard_ocp_subscriptions") h refl,
        ◌>>=◌,
        held subs (codes "standard_ocp_term_1") h refl,
        held subs (codes "standard_ocp_term_2") h refl,
        held subs (codes "standard_ocp_term_3") h refl,
      )
      refl,
  (
    rw
        (
          held subs (codes "premium_ocp_subscriptions") h refl,
          ◌>>=◌,
          held subs (codes "premium_ocp_term_2") h refl,
          held subs (codes "premium_ocp_term_3") h refl,
        )
        refl,
    (
      rw (held subs (codes "standard_s390x_subscriptions") h refl, ◌>>=◌) refl,
      (rw (held subs (codes "premium_s390x_subscriptions") h refl, ◌>>=◌) refl, tt),
    ),
  ),
)

node_part-EachOf : (rows : List EvaluatedRow) → EachOf IsNodeRecord rows (node_part rows)
unfolding node_part
node_part-EachOf [] = no_more
node_part-EachOf (r ∷ rows) = next (node_cells-IsNodeRecord r) (node_part-EachOf rows)

abbrev groups : List Supply → List Group
groups [] = []
groups (s ∷ ss) = s.group ∷ groups ss

total_part-EachOf :
    (rows : List EvaluatedRow) (ss : List Supply)
    → EachOf (λ s. IsTotalRecord rows s.group) ss (total_part rows (groups ss))
unfolding total_part
total_part-EachOf rows [] = no_more
total_part-EachOf rows (s ∷ ss) =
    next (total_cells-IsTotalRecord rows s.group) (total_part-EachOf rows ss)

available_part-EachOf :
    (subs : Subs) (ss : List Supply)
    → All (IsSupplied subs) ss
    → (part : List (List Cell)) × (available_part subs (groups ss) ≡ some part)
      × EachOf (IsAvailableRecord subs) ss part
unfolding available_part
available_part-EachOf subs [] h = ([], refl, no_more)
available_part-EachOf subs (s ∷ ss) (h, hs) =
    let (rest, runs, each) = available_part-EachOf subs ss hs in
    (
      available_cells s.group (supplied subs s) ∷ rest,
      rw (h, ◌>>=◌, runs),
      next (available_cells-IsAvailableRecord subs s) each,
    )

gap_part-EachOf :
    (subs : Subs) (rows : List EvaluatedRow) (ss : List Supply)
    → All (IsSupplied subs) ss
    → (part : List (List Cell)) × (gap_part subs rows (groups ss) ≡ some part)
      × EachOf (IsGapRecord subs rows) ss part
unfolding gap_part
gap_part-EachOf subs rows [] h = ([], refl, no_more)
gap_part-EachOf subs rows (s ∷ ss) (h, hs) =
    let (rest, runs, each) = gap_part-EachOf subs rows ss hs in
    (
      gap_cells s.group (gap (grand_total rows s.group) (supplied subs s)) ∷ rest,
      rw (h, ◌>>=◌, runs),
      next (gap_cells-IsGapRecord rows subs s) each,
    )

-- Whatever the subscription file holds, and if there is none, no key is missing, and the records are: the
-- header; a record for each row, with the row's values in the columns of their names; for each of the four
-- groups of architecture and support the sums over its rows; then what the subscriptions hold for each
-- group, and what each group needs less what it has. The last column tells the four kinds apart.
pub report_shape :
    (file : Option Text) (rows : List EvaluatedRow)
    → (records : List (List Cell)) × (report (load_subscriptions file) rows ≡ some records)
      × IsReport (load_subscriptions file) rows records
unfolding report
report_shape file rows =
    let subs = load_subscriptions file in
    let present = supplies-IsSupplied subs (record { same_keys = keys-load_subscriptions file }) in
    let (avails, runs₁, each₁) = available_part-EachOf subs supplies present in
    let (gaps, runs₂, each₂) = gap_part-EachOf subs rows supplies present in
    (
      _,
      rw (runs₁, ◌>>=◌, runs₂),
      record {
        nodes = node_part rows;
        totals = total_part rows aggr_groups;
        avails = avails;
        gaps = gaps;
        parts = refl;
        of_nodes = node_part-EachOf rows;
        of_groups = total_part-EachOf rows supplies;
        of_avails = each₁;
        of_gaps = each₂;
      },
    )
