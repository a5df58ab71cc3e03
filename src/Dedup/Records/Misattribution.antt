-- ===== src/Dedup/Records/Misattribution.antt =====
-- Which cluster the signature and lookup-table records are kept for.
use cluster_size_operator_fo.Prelude.{◌≡◌, ◌≢◌, true, some, [], ◌∷◌, list_eq, nat_eq, arith, ℕ}
use cluster_size_operator_fo.Text.{Text, codes, strip}
use cluster_size_operator_fo.Dates.Stamp.{TimeError}
use cluster_size_operator_fo.Dict.{lookup, insert, keys, last, has_key}
use cluster_size_operator_fo.Dict.Laws.{lookup-insert, keys-insert, contains-keys}
use cluster_size_operator_fo.Compliance.Ingest.{part}
use cluster_size_operator_fo.Compliance.Ingest.Reset.{fields}
use cluster_size_operator_fo.Dedup.Records.{
  Snapshot, format_epoch_string, put_r, put_t, then_read, read_log,
}
use cluster_size_operator_fo.Dedup.Records.Lines.{
  IsRecord, cluster_of, dated, renewed, read_r, read_t, header_done,
}

module _ (late : ℕ → TimeError) where
  signed_by :
      (id r t : Text) (st : Snapshot)
      → last (keys st.headers) ≡ some id
      → IsRecord (codes "R") 0 r
      → IsRecord (codes "T") 0 t
      → read_log late (r ∷ t ∷ []) st
        ≡ some (record st {
          r_records = insert id (strip r) st.r_records;
          t_records = insert id (strip t) st.t_records;
        })
  unfolding read_log put_r put_t
  signed_by id r t st l hr ht = rw (read_r late r st hr, l, then_read, read_t late t _ ht, l)

  -- A cluster `id` that is seen again keeps its place in the headers, so the `R` record behind its new header is
  -- stored for the cluster `other` that was first seen last, over that cluster's own; the record of `id` stays
  -- the old one, and the same happens to the `T` record, its signature.
  pub returning_cluster_misattributed :
      (id other header r t installed updated : Text) (st : Snapshot)
      → has_key id st.headers ≡ true
      → last (keys st.headers) ≡ some other
      → id ≢ other
      → IsRecord (codes "H") 8 header
      → cluster_of header ≡ id
      → format_epoch_string late (part (fields header) 4) ≡ some installed
      → format_epoch_string late (part (fields header) 6) ≡ some updated
      → IsRecord (codes "R") 0 r
      → IsRecord (codes "T") 0 t
      → (st' : Snapshot) × (read_log late (header ∷ r ∷ t ∷ []) st ≡ some st')
        × (lookup other st'.r_records ≡ some (strip r))
        × (lookup other st'.t_records ≡ some (strip t))
        × (lookup id st'.r_records ≡ lookup id st.r_records)
        × (lookup id st'.t_records ≡ lookup id st.t_records)
  unfolding read_log
  returning_cluster_misattributed id other header r t installed updated st old l ne h c k m hr ht =
      let st₁ = renewed id (dated (fields header) installed updated) st in
      let last₁ : last (keys st₁.headers) ≡ some other = rw (keys-insert, contains-keys, old) l in
      let st₂ : Snapshot = record st₁ { r_records = insert other (strip r) st₁.r_records } in
      let st₃ : Snapshot = record st₂ { t_records = insert other (strip t) st₂.t_records } in
      (
        st₃,
        rw (header_done late header st installed updated h k m, then_read, c)
            (signed_by other r t st₁ last₁ hr ht),
        ground (arith, lookup-insert other other (strip r) st.r_records),
        ground (arith, lookup-insert other other (strip t) st.t_records),
        ground (arith, lookup-insert id other (strip r) st.r_records),
        ground (arith, lookup-insert id other (strip t) st.t_records),
      )
