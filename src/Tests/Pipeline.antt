-- ===== src/Tests/Pipeline.antt =====
-- A snapshot of two clusters, written and read again.
use cluster_size_operator_fo.Prelude.{
  ◌≡◌, ◌⊎◌, inl, inr, refl, ap, get_or, some, List, [], ◌∷◌, list_eq, nat_eq, arith,
}
use cluster_size_operator_fo.Text.Number.{count_raises, isdigit, is_digit}
use cluster_size_operator_fo.Text.{Text, codes, strip, lstrip, rstrip, is_space, split, lower}
use cluster_size_operator_fo.Dict.{Dict, lookup}
use cluster_size_operator_fo.Compliance.{Latest}
use cluster_size_operator_fo.Compliance.Ingest.{header_raises, empty, ingest_lines}
use cluster_size_operator_fo.Dedup.Records.{Snapshot, output_lines}
use cluster_size_operator_fo.Pipeline.Blocks.{IsEvaluable}
use cluster_size_operator_fo.Pipeline.Evaluated.{header_seen, nodes_seen, output_lines-ingest_lines}
use cluster_size_operator_fo.Tests.Data.{
  header_record, node_record, lookup_record, signature_record,
}

abbrev other_header : Text
other_header = codes "H,c0,3,Standard,2025-01-01,Bare Metal,2025-02-01,1"

abbrev snapshot : Snapshot
snapshot = record {
  headers = (codes "c1", header_record) ∷ (codes "c0", other_header) ∷ [];
  nodes = (codes "c1", node_record ∷ []) ∷ (codes "c0", []) ∷ [];
  r_records = (codes "c1", lookup_record) ∷ [];
  t_records = (codes "c0", signature_record) ∷ [];
}

first-IsEvaluable : IsEvaluable snapshot (codes "c1") header_record
unfolding lookup strip lstrip rstrip is_space split lower list_eq nat_eq header_raises count_raises
    isdigit is_digit
first-IsEvaluable = record {
  header = record { solid = refl; tag = refl; long = refl; cluster = refl; readable = refl };
  no_cloud = refl;
  nodes = (record { solid = refl; tag = refl; long = refl; cluster = refl; readable = refl }, tt);
  r_record = (
    record {
      no_header = λ e. omega (arith, ap (λ (t : Text). get_or t 0 0) e);
      no_node = λ e. omega (arith, ap (λ (t : Text). get_or t 0 0) e);
    },
    tt,
  );
  t_record = tt;
}

other-IsEvaluable : IsEvaluable snapshot (codes "c0") other_header
unfolding lookup strip lstrip rstrip is_space split lower list_eq nat_eq header_raises count_raises
    isdigit is_digit
other-IsEvaluable = record {
  header = record { solid = refl; tag = refl; long = refl; cluster = refl; readable = refl };
  no_cloud = refl;
  nodes = tt;
  r_record = tt;
  t_record = (
    record {
      no_header = λ e. omega (arith, ap (λ (t : Text). get_or t 0 0) e);
      no_node = λ e. omega (arith, ap (λ (t : Text). get_or t 0 0) e);
    },
    tt,
  );
}

lookup_cases :
    (id k v h : Text) (d : Dict Text Text)
    → lookup id ((k, v) ∷ d) ≡ some h
    → ((id ≡ k) × (h ≡ v)) ⊎ (lookup id d ≡ some h)
unfolding lookup
lookup_cases id k v h d e = ground arith

not_in_nil : (id h : Text) (e : lookup id [] ≡ some h) → ⊥
unfolding lookup
not_in_nil id h e = cc

same-IsEvaluable :
    (id h k v : Text) → (id ≡ k) × (h ≡ v) → IsEvaluable snapshot k v → IsEvaluable snapshot id h
same-IsEvaluable id h k v (p, q) e = rw (p, q) e

snapshot-IsEvaluable :
    (id h : Text) → lookup id snapshot.headers ≡ some h → IsEvaluable snapshot id h
snapshot-IsEvaluable id h e = elim (lookup_cases id (codes "c1") header_record h _ e) [
  | inl s ↦ same-IsEvaluable id h (codes "c1") header_record s first-IsEvaluable
  | inr f ↦ elim (lookup_cases id (codes "c0") other_header h [] f) [
    | inl s ↦ same-IsEvaluable id h (codes "c0") other_header s other-IsEvaluable
    | inr g ↦ absurd (not_in_nil id h g)
  ]
]

output_lines-ingest_lines_example :
    (out : List Text) × (output_lines snapshot ≡ some out)
    × ((l : Latest) × (ingest_lines out empty ≡ some l)
        × ((id : Text) → lookup id l.headers ≡ header_seen snapshot id)
        × ((id : Text) → lookup id l.nodes ≡ nodes_seen snapshot id))
output_lines-ingest_lines_example = output_lines-ingest_lines snapshot snapshot-IsEvaluable
