-- ===== src/Dedup/Records/Output.antt =====
-- What the output holds.
use cluster_size_operator_fo.Prelude.{
  ◌≡◌, refl, true, none, some, Option, List, [], ◌∷◌, ◌++◌, list_eq, nat_eq, All, arith,
}
use cluster_size_operator_fo.Text.{Text}
use cluster_size_operator_fo.Text.Order.{sorted, All-sorted, IsArranged, sorted-IsArranged}
use cluster_size_operator_fo.Dict.{lookup, keys, has_key}
use cluster_size_operator_fo.Dict.Laws.{All-has_key, is_some-some}
use cluster_size_operator_fo.Lifecycle.{◌>>=◌}
use cluster_size_operator_fo.Dedup.Records.{Snapshot, cluster_lines, output_for, output_lines}

-- A record that a cluster may have, as lines.
abbrev pub lone : Option Text → List Text
lone none = []
lone (some line) = line ∷ []

abbrev pub listed : Option (List Text) → List Text
listed none = []
listed (some lines) = lines

-- The lines of the cluster `id`: its header, then its nodes, its `R` record and its `T` record.
pub record IsBlock (st : Snapshot) (id : Text) (block : List Text) : Type 0 where
  pub header : Text
  pub has_header : lookup id st.headers ≡ some header
  pub lines :
      block
      ≡ header
        ∷ (listed (lookup id st.nodes)
            ++ (lone (lookup id st.r_records) ++ lone (lookup id st.t_records)))

-- `out` has a block for each of the clusters `ids`, in their order, and nothing else.
abbrev pub Blocks : Snapshot → List Text → List Text → Type 0
Blocks st [] out = out ≡ []
Blocks st (id ∷ ids) out =
    (block rest : List Text) × IsBlock st id block × (out ≡ block ++ rest) × Blocks st ids rest

cluster_lines-IsBlock :
    (st : Snapshot) (id h : Text)
    → lookup id st.headers ≡ some h
    → IsBlock st id (cluster_lines st id h)
unfolding cluster_lines
cluster_lines-IsBlock st id h e = record { header = h; has_header = e; lines = ground arith }

output_for-Blocks :
    (st : Snapshot) (ids : List Text)
    → All (λ id. has_key id st.headers ≡ true) ids
    → (out : List Text) × (output_for st ids ≡ some out) × Blocks st ids out
unfolding output_for
output_for-Blocks st [] l = ([], refl, refl)
output_for-Blocks st (id ∷ ids) (l, ls) =
    let (h, e) = is_some-some (lookup id st.headers) l in
    let (rest, runs, blocks) = output_for-Blocks st ids ls in
    (
      cluster_lines st id h ++ rest,
      rw (e, ◌>>=◌, runs),
      (cluster_lines st id h, rest, cluster_lines-IsBlock st id h e, refl, blocks),
    )

-- Writing never fails with a `KeyError`, and the output is one block for each cluster with a header, in
-- the order of the cluster ids: the cluster's header, its nodes in their order, and its `R` and `T`
-- records, if it has them.
pub output_lines-Blocks :
    (st : Snapshot)
    → (out ids : List Text) × (output_lines st ≡ some out)
      × IsArranged (keys st.headers) ids
      × Blocks st ids out
unfolding output_lines
output_lines-Blocks st =
    let ids = keys st.headers in
    let (out, runs, blocks) =
      output_for-Blocks st (sorted ids)
        (All-sorted (λ id. has_key id st.headers ≡ true) ids (All-has_key st.headers)) in
    (out, sorted ids, runs, sorted-IsArranged ids, blocks)
