-- ===== src/Compliance/Rows/Clusters.antt =====
-- The rows of all clusters, compared with the nodes that count.
use cluster_size_operator_fo.Prelude.{
  ◌≡◌, refl, true, Option, none, some, List, [], ◌∷◌, ◌++◌, All, list_eq, nat_eq,
}
use cluster_size_operator_fo.Text.{Text}
use cluster_size_operator_fo.Text.Order.{sorted, All-sorted, IsArranged, sorted-IsArranged}
use cluster_size_operator_fo.Dict.{keys, lookup, or_else, has_key}
use cluster_size_operator_fo.Dict.Laws.{All-has_key, is_some-some}
use cluster_size_operator_fo.Lifecycle.{◌>>=◌}
use cluster_size_operator_fo.Compliance.{Header, Node, Version, Latest}
use cluster_size_operator_fo.Compliance.Rows.{
  EvaluatedRow, Terms, with_versions, cluster_rows, rows_of, evaluate_rows,
}
use cluster_size_operator_fo.Compliance.Rows.Nodes.{IsSmall, NodeRows, loop_nodes-NodeRows}

-- `shown` is the header `h` with the versions that the cluster has, if it has some.
abbrev pub IsVersioned : Option Version → Header → Header → Type 0
IsVersioned none h shown = shown ≡ h
IsVersioned (some v) h shown =
    shown ≡ record h { cluster_version = v.current; cluster_initial_version = v.initial }

-- The nodes of a cluster. A cluster without an entry has none.
abbrev pub nodes_at : Latest → Text → List Node
nodes_at st id = or_else (lookup id st.nodes) []

-- The rows of the cluster `id`.
pub record IsRowsOf (t : Terms) (st : Latest) (id : Text) (rows : List EvaluatedRow) : Type 0 where
  pub header : Header
  pub shown : Header
  pub has_header : lookup id st.headers ≡ some header
  pub versioned : IsVersioned (lookup id st.versions) header shown
  pub rows_of_nodes : NodeRows t shown (nodes_at st id) rows

-- `rows` are the rows of the clusters `ids`, in their order.
abbrev pub ClusterRows : Terms → Latest → List Text → List EvaluatedRow → Type 0
ClusterRows t st [] rows = rows ≡ []
ClusterRows t st (id ∷ ids) rows =
    (some_rows rest : List EvaluatedRow) × IsRowsOf t st id some_rows
    × (rows ≡ some_rows ++ rest)
    × ClusterRows t st ids rest

-- In each of the clusters `ids`, the CPUs of the nodes are few enough for exact floats.
abbrev pub AreSmall : Latest → List Text → Type 0
AreSmall st = All (λ id. All IsSmall (nodes_at st id))

with_versions-IsVersioned : (v : Option Version) (h : Header) → IsVersioned v h (with_versions v h)
unfolding with_versions
with_versions-IsVersioned none h = refl
with_versions-IsVersioned (some v) h = refl

module _ (t : Terms) (st : Latest) where
  cluster_rows-IsRowsOf :
      (id : Text)
      → has_key id st.headers ≡ true
      → All IsSmall (nodes_at st id)
      → (rows : List EvaluatedRow) × (cluster_rows t st id ≡ some rows) × IsRowsOf t st id rows
  unfolding cluster_rows
  cluster_rows-IsRowsOf id k small =
      let (h, e) = is_some-some (lookup id st.headers) k in
      let shown = with_versions (lookup id st.versions) h in
      let (rows, runs, made) = loop_nodes-NodeRows t shown (nodes_at st id) small in
      (
        rows,
        rw (e, ◌>>=◌) runs,
        record {
          header = h;
          shown = shown;
          has_header = e;
          versioned = with_versions-IsVersioned (lookup id st.versions) h;
          rows_of_nodes = made;
        },
      )

  rows_of-ClusterRows :
      (ids : List Text)
      → All (λ id. has_key id st.headers ≡ true) ids
      → AreSmall st ids
      → (rows : List EvaluatedRow) × (rows_of t st ids ≡ some rows) × ClusterRows t st ids rows
  unfolding rows_of
  rows_of-ClusterRows [] k small = ([], refl, refl)
  rows_of-ClusterRows (id ∷ ids) (k, ks) (small, others) =
      let (some_rows, run, made) = cluster_rows-IsRowsOf id k small in
      let (rest, runs, all_made) = rows_of-ClusterRows ids ks others in
      (some_rows ++ rest, rw (run, ◌>>=◌, runs), (some_rows, rest, made, refl, all_made))

  -- If each node has fewer than 2^53 CPUs, evaluation fails with no exception, and the rows are those of the
  -- clusters with a header, in the order of their ids: with the versions of the cluster, if it has some, one
  -- row for each node in the order of the nodes, but none for a node of the control plane or of the
  -- infrastructure of a cluster of more than three nodes.
  pub evaluate_rows_exact :
      AreSmall st (keys st.headers)
      → (rows : List EvaluatedRow) × (ids : List Text) × (evaluate_rows t st ≡ some rows)
        × IsArranged (keys st.headers) ids
        × ClusterRows t st ids rows
  unfolding evaluate_rows
  evaluate_rows_exact small =
      let ids = keys st.headers in
      let (rows, runs, made) =
        rows_of-ClusterRows (sorted ids)
          (All-sorted (λ id. has_key id st.headers ≡ true) ids (All-has_key st.headers))
          (All-sorted (λ id. All IsSmall (nodes_at st id)) ids small) in
      (rows, sorted ids, runs, sorted-IsArranged ids, made)
