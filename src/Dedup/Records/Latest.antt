-- ===== src/Dedup/Records/Latest.antt =====
-- The newest snapshot of a cluster, and the output.
use cluster_size_operator_fo.Prelude.{
  ◌≡◌, refl, ◌∙◌, some, List, [], ◌∷◌, ◌++◌, append-nil, append_assoc, list_eq, nat_eq, arith, ◌==◌,
  ℕ, if◌then◌else◌, All,
}
use cluster_size_operator_fo.Text.{Text, codes, strip}
use cluster_size_operator_fo.Dates.Stamp.{TimeError}
use cluster_size_operator_fo.Dict.{lookup, insert}
use cluster_size_operator_fo.Dict.Laws.{lookup-insert}
use cluster_size_operator_fo.Compliance.Ingest.{part}
use cluster_size_operator_fo.Compliance.Ingest.Reset.{fields}
use cluster_size_operator_fo.Dedup.Records.{
  Snapshot, format_epoch_string, on_node, read_line, then_read, read_log,
}
use cluster_size_operator_fo.Dedup.Records.Lines.{
  IsRecord, cluster_of, dated, renewed, header_done, read_node,
}

-- `b` is `a` but for the nodes of the cluster `id`, which are `ns`.
pub record WithNodes (id : Text) (ns : List Text) (a b : Snapshot) : Type 0 where
  pub nodes : (j : Text) → lookup j b.nodes ≡ (if j == id then some ns else lookup j a.nodes)
  pub r_records : b.r_records ≡ a.r_records
  pub t_records : b.t_records ≡ a.t_records

abbrev pub stripped : List Text → List Text
stripped [] = []
stripped (line ∷ lines) = strip line ∷ stripped lines

WithNodes-append :
    (id : Text) (ns ms : List Text) (st b : Snapshot)
    → WithNodes id ms (record st { nodes = insert id ns st.nodes }) b
    → WithNodes id ms st b
WithNodes-append id ns ms st b w = record {
  nodes = λ j. ground (arith, w.nodes j, lookup-insert j id ns st.nodes);
  r_records = w.r_records;
  t_records = w.t_records;
}

module _ (late : ℕ → TimeError) where
  node_line :
      (id line : Text) (ns : List Text) (st : Snapshot)
      → IsRecord (codes "N") 2 line
      → cluster_of line ≡ id
      → lookup id st.nodes ≡ some ns
      → read_line late line st
        ≡ some (record st { nodes = insert id (ns ++ strip line ∷ []) st.nodes })
  unfolding on_node
  node_line id line ns st h c e = read_node late line st h ∙ rw (c, e)

  -- `N` records of the cluster `id`
  abbrev pub NodeLines : Text → List Text → Type 0
  NodeLines id = All (λ line. IsRecord (codes "N") 2 line × (cluster_of line ≡ id))

  node_lines :
      (id : Text) (lines ns : List Text) (st : Snapshot)
      → NodeLines id lines
      → lookup id st.nodes ≡ some ns
      → (st' : Snapshot) × (read_log late lines st ≡ some st')
        × (st'.headers ≡ st.headers)
        × WithNodes id (ns ++ stripped lines) st st'
  unfolding read_log
  node_lines id [] ns st h e = (
    st,
    refl,
    refl,
    record { nodes = λ j. rw append-nil (ground arith); r_records = refl; t_records = refl },
  )
  node_lines id (line ∷ lines) ns st ((h, c), hs) e =
      let st₁ : Snapshot = record st { nodes = insert id (ns ++ strip line ∷ []) st.nodes } in
      let (st₂, runs, same, with) =
        node_lines id lines (ns ++ strip line ∷ []) st₁ hs
          (ground (arith, lookup-insert id id (ns ++ strip line ∷ []) st.nodes)) in
      (
        st₂,
        rw (node_line id line ns st h c e) runs,
        same,
        WithNodes-append id (ns ++ strip line ∷ []) (ns ++ stripped (line ∷ lines)) st st₂
            (rw append_assoc at with),
      )

  -- Behind the `H` record of a cluster and `N` records of it, its header is that record with its moments
  -- converted, and its nodes are exactly those records, in order, whatever was read before; the nodes of
  -- the other clusters and all `R` and `T` records are kept.
  pub read_log_snapshot :
      (id header installed updated : Text) (lines : List Text) (st : Snapshot)
      → IsRecord (codes "H") 8 header
      → cluster_of header ≡ id
      → format_epoch_string late (part (fields header) 4) ≡ some installed
      → format_epoch_string late (part (fields header) 6) ≡ some updated
      → NodeLines id lines
      → (st' : Snapshot) × (read_log late (header ∷ lines) st ≡ some st')
        × (st'.headers ≡ insert id (dated (fields header) installed updated) st.headers)
        × WithNodes id (stripped lines) st st'
  unfolding read_log
  read_log_snapshot id header installed updated lines st h c k m hs =
      let text = dated (fields header) installed updated in
      let (st', runs, same, with) =
        node_lines id lines [] (renewed id text st) hs
          (ground (arith, lookup-insert id id [] st.nodes)) in
      (
        st',
        rw (header_done late header st installed updated h k m, then_read, c) runs,
        same,
        record {
          nodes = λ j. ground (arith, with.nodes j, lookup-insert j id [] st.nodes);
          r_records = with.r_records;
          t_records = with.t_records;
        },
      )
