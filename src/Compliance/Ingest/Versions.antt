-- ===== src/Compliance/Ingest/Versions.antt =====
-- Which cluster the versions of an `R` record are stored for.
use cluster_size_operator_fo.Prelude.{
  ◌≡◌, refl, ◌∙◌, true, false, Option, none, some, List, [], ◌∷◌, ◌++◌, list_eq, nat_eq, arith,
  contains, All,
}
use cluster_size_operator_fo.Text.{Text}
use cluster_size_operator_fo.Base64.{decode_text}
use cluster_size_operator_fo.Dict.{lookup, insert, keys, last, has_key}
use cluster_size_operator_fo.Dict.Laws.{lookup-insert, keys-insert, contains-keys, last-append}
use cluster_size_operator_fo.Compliance.{Latest}
use cluster_size_operator_fo.Compliance.Ingest.{
  part, cloud_platforms, make_header, make_version, on_header, set_version, on_lookup_table,
  ingest_line, then_ingest, ingest_lines,
}
use cluster_size_operator_fo.Compliance.Ingest.Reset.{
  fields, platform_of, IsHeaderLine, IsNodeLine, IsLookupLine, ingest_header, ingest_lookup,
  ingest-IsSnapshot,
}

abbrev pub with_version : Text → Text → Latest → Latest
with_version id decoded st = record st { versions = insert id (make_version decoded) st.versions }

lookup_line :
    (id line decoded : Text) (st : Latest)
    → IsLookupLine line
    → decode_text (part (fields line) 1) ≡ some decoded
    → last (keys st.headers) ≡ some id
    → ingest_line line st ≡ some (with_version id decoded st)
unfolding on_lookup_table set_version
lookup_line id line decoded st h d l = ingest_lookup line st h ∙ rw (l, d)

-- The header of a cluster on a cloud platform is passed over, but the `R` record behind it is not: its
-- versions are stored for the cluster whose header was inserted last, over that cluster's own.
pub cloud_version_misattributed :
    (id cloud header line decoded : Text) (st : Latest)
    → last (keys st.headers) ≡ some id
    → IsHeaderLine cloud header
    → contains cloud_platforms (platform_of (fields header)) ≡ true
    → IsLookupLine line
    → decode_text (part (fields line) 1) ≡ some decoded
    → ingest_lines (header ∷ line ∷ []) st ≡ some (with_version id decoded st)
unfolding ingest_lines on_header
cloud_version_misattributed id cloud header line decoded st l h c r d = rw (
  ingest_header cloud header st h,
  then_ingest,
  c,
  on_header,
  lookup_line id line decoded st r d l,
)

then_ingest-then :
    (o : Option Latest) (xs ys : List Text)
    → ((st : Latest)
        → ingest_lines (xs ++ ys) st ≡ then_ingest (ingest_lines ys) (ingest_lines xs st))
    → then_ingest (ingest_lines (xs ++ ys)) o
      ≡ then_ingest (ingest_lines ys) (then_ingest (ingest_lines xs) o)
then_ingest-then none xs ys h = refl
then_ingest-then (some st) xs ys h = h st

last_inserted :
    (id : Text) (st : Latest) (parts : List Text)
    → has_key id st.headers ≡ false
    → last (keys (insert id (make_header parts) st.headers)) ≡ some id
last_inserted id st parts fresh =
    rw (keys-insert, contains-keys, fresh) (last-append (keys st.headers) id)

ingest_lines-append :
    (xs ys : List Text) (st : Latest)
    → ingest_lines (xs ++ ys) st ≡ then_ingest (ingest_lines ys) (ingest_lines xs st)
unfolding ingest_lines
ingest_lines-append [] ys st = refl
ingest_lines-append (x ∷ xs) ys st =
    then_ingest-then (ingest_line x st) xs ys (ingest_lines-append xs ys)

-- For a cluster that had no header yet: after its `H` record, its `N` records and an `R` record that can be
-- decoded, the versions of that record are stored for this cluster.
pub ingest_own_version :
    (id header line decoded : Text) (lines : List Text) (st : Latest)
    → has_key id st.headers ≡ false
    → IsHeaderLine id header
    → contains cloud_platforms (platform_of (fields header)) ≡ false
    → All (IsNodeLine id) lines
    → IsLookupLine line
    → decode_text (part (fields line) 1) ≡ some decoded
    → (st' : Latest) × (ingest_lines ((header ∷ lines) ++ line ∷ []) st ≡ some st')
      × (lookup id st'.versions ≡ some (make_version decoded))
ingest_own_version id header line decoded lines st fresh h c hs r d =
    let (st', runs, snap) = ingest-IsSnapshot id header lines st h c hs in
    let last_id : last (keys st'.headers) ≡ some id =
      rw (snap.headers) (last_inserted id st (fields header) fresh) in
    (
      with_version id decoded st',
      ingest_lines-append (header ∷ lines) (line ∷ []) st
          ∙ rw runs (unfold ingest_lines in rw (lookup_line id line decoded st' r d last_id)),
      ground (arith, lookup-insert id id (make_version decoded) st'.versions),
    )
