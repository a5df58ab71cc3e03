-- ===== src/Pipeline/Evaluated.antt =====
-- All clusters of an output, as the evaluation reads them.
use cluster_size_operator_fo.Prelude.{
  ◌≡◌, refl, ◌∙◌, ap, true, Option, none, some, List, [], ◌∷◌, ◌++◌, contains, list_eq, nat_eq,
  if◌then◌else◌, arith, All,
}
use mathlib.Core.Option
use cluster_size_operator_fo.Text.{Text}
use cluster_size_operator_fo.Text.Distinct.{contains-sorted}
use cluster_size_operator_fo.Text.Order.{sorted, All-sorted}
use cluster_size_operator_fo.Dict.{lookup, keys, has_key, is_some, or_else}
use cluster_size_operator_fo.Dict.Laws.{All-has_key, is_some-some, contains-keys}
use cluster_size_operator_fo.Lifecycle.{◌>>=◌}
use cluster_size_operator_fo.Compliance.{Header, Node, Latest}
use cluster_size_operator_fo.Compliance.Ingest.{empty, make_header, ingest_lines}
use cluster_size_operator_fo.Compliance.Ingest.Reset.{fields, nodes_of}
use cluster_size_operator_fo.Dedup.Records.{Snapshot, cluster_lines, output_for, output_lines}
use cluster_size_operator_fo.Pipeline.Blocks.{IsEvaluable, IsEntered, block_lines}

-- The header and the nodes that the evaluation is to have for a cluster.
abbrev pub header_seen : Snapshot → Text → Option Header
header_seen st id = Option.map (λ h. make_header (fields h)) (lookup id st.headers)

abbrev pub nodes_seen : Snapshot → Text → Option (List Node)
nodes_seen st id =
    Option.map (λ h. nodes_of (or_else (lookup id st.nodes) [])) (lookup id st.headers)

-- `b` is `a` with what `st` has for the clusters `ids`.
record AreEntered (st : Snapshot) (ids : List Text) (a b : Latest) : Type 0 where
  headers :
      (j : Text)
      → lookup j b.headers ≡ (if contains ids j then header_seen st j else lookup j a.headers)
  nodes :
      (j : Text) → lookup j b.nodes ≡ (if contains ids j then nodes_seen st j else lookup j a.nodes)

next_entered :
    (st : Snapshot) (id h : Text) (ids : List Text) (l l₁ l₂ : Latest)
    → lookup id st.headers ≡ some h
    → IsEntered st id h l l₁
    → AreEntered st ids l₁ l₂
    → AreEntered st (id ∷ ids) l l₂
next_entered st id h ids l l₁ l₂ e first rest = record {
  headers = λ j. ground (
    arith,
    rest.headers j,
    first.headers j,
    ap (λ o. Option.map (λ t. make_header (fields t)) o) e,
  );
  nodes = λ j. ground (
    arith,
    rest.nodes j,
    first.nodes j,
    ap (λ o. Option.map (λ t. nodes_of (or_else (lookup id st.nodes) [])) o) e,
  );
}

module _ (st : Snapshot)
    (readable : (id h : Text) → lookup id st.headers ≡ some h → IsEvaluable st id h) where
  output_for_seen :
      (ids : List Text) (l : Latest)
      → All (λ id. has_key id st.headers ≡ true) ids
      → (out : List Text) × (output_for st ids ≡ some out)
        × ((l' : Latest) × (ingest_lines out l ≡ some l') × AreEntered st ids l l')
  unfolding output_for ingest_lines
  output_for_seen [] l k = ([], refl, (l, refl, record { headers = λ j. refl; nodes = λ j. refl }))
  output_for_seen (id ∷ ids) l (k, ks) =
      let (h, e) = is_some-some (lookup id st.headers) k in
      let (l₁, reads, first) = block_lines st id h l (readable id h e) in
      let (rest, runs, (l₂, ingested, others)) = output_for_seen ids l₁ ks in
      (
        cluster_lines st id h ++ rest,
        rw (e, ◌>>=◌, runs) refl,
        (l₂, reads rest ∙ ingested, next_entered st id h ids l l₁ l₂ e first others),
      )

known_keys :
    {A : Type 0} (f : Text → A) (o : Option Text)
    → (if is_some o then Option.map f o else none) ≡ Option.map f o
known_keys f none = refl
known_keys f (some h) = refl

all_ids :
    {A : Type 0} (f : Text → A) (st : Snapshot) (id : Text)
    → (if contains (sorted (keys st.headers)) id then Option.map f (lookup id st.headers) else none)
      ≡ Option.map f (lookup id st.headers)
all_ids f st id =
    ap (λ b. if b then Option.map f (lookup id st.headers) else none)
      (contains-sorted (keys st.headers) id ∙ contains-keys id st.headers)
    ∙ known_keys f (lookup id st.headers)

-- If the lines that a snapshot has for each cluster can be read by the evaluation (no cluster is on a cloud platform), then
-- the output of the deduplication is written, the evaluation reads it, and it finds exactly the clusters of the snapshot,
-- each with the header and the nodes that the snapshot has for it.
pub output_lines-ingest_lines :
    (st : Snapshot)
    → ((id h : Text) → lookup id st.headers ≡ some h → IsEvaluable st id h)
    → (out : List Text) × (output_lines st ≡ some out)
      × ((l : Latest) × (ingest_lines out empty ≡ some l)
          × ((id : Text) → lookup id l.headers ≡ header_seen st id)
          × ((id : Text) → lookup id l.nodes ≡ nodes_seen st id))
unfolding output_lines lookup
output_lines-ingest_lines st readable =
    let (out, runs, (l, ingested, seen)) =
      output_for_seen st readable (sorted (keys st.headers)) empty (
        All-sorted (λ id. has_key id st.headers ≡ true) (keys st.headers)
          (All-has_key st.headers)) in
    (
      out,
      runs,
      (
        l,
        ingested,
        λ id. seen.headers id ∙ all_ids (λ h. make_header (fields h)) st id,
        λ id. seen.nodes id ∙ all_ids (λ h. nodes_of (or_else (lookup id st.nodes) [])) st id,
      ),
    )
