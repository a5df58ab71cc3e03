-- ===== src/Pipeline/Blocks.antt =====
-- How the evaluation reads the lines of one cluster.
use cluster_size_operator_fo.Prelude.{
  ◌≡◌, ◌≢◌, refl, ◌∙◌, ap, Bool, true, false, ◌&&◌, Option, none, some, List, [], ◌∷◌, ◌++◌,
  append_assoc, ◌==◌, contains, list_eq, nat_eq, if◌then◌else◌, arith, All, length, leb,
}
use cluster_size_operator_fo.Text.{Text, codes, strip, is_nil}
use cluster_size_operator_fo.Dict.{lookup, or_else}
use cluster_size_operator_fo.Dict.Laws.{lookup-insert}
use cluster_size_operator_fo.Base64.{decode_text}
use cluster_size_operator_fo.Compliance.{Latest}
use cluster_size_operator_fo.Compliance.Ingest.{
  part, cloud_platforms, make_header, set_version, on_lookup_table, on_record, ingest_line,
  then_ingest, ingest_lines,
}
use cluster_size_operator_fo.Compliance.Ingest.Reset.{
  fields, platform_of, IsHeaderLine, IsNodeLine, nodes_of, IsSnapshot, ingest-IsSnapshot,
}
use cluster_size_operator_fo.Dedup.Records.{Snapshot, optional, cluster_lines}

-- The line is neither an `H` nor an `N` record.
pub record IsTail (line : Text) : Type 0 where
  pub no_header : part (fields line) 0 ≢ codes "H"
  pub no_node : part (fields line) 0 ≢ codes "N"

-- What the evaluation can read of a cluster: its header is an `H` record of it with at least 8 fields and
-- on no cloud platform, its nodes are `N` records of it with at least 6 fields, and its other records
-- are neither.
pub record IsEvaluable (st : Snapshot) (id h : Text) : Type 0 where
  pub header : IsHeaderLine id h
  pub no_cloud : contains cloud_platforms (platform_of (fields h)) ≡ false
  pub nodes : All (IsNodeLine id) (or_else (lookup id st.nodes) [])
  pub r_record : All IsTail (optional (lookup id st.r_records))
  pub t_record : All IsTail (optional (lookup id st.t_records))

-- The headers and the nodes of `a` and `b` are the same.
pub record SameNodes (a b : Latest) : Type 0 where
  pub headers : b.headers ≡ a.headers
  pub nodes : b.nodes ≡ a.nodes

abbrev after_tail : Text → Latest → Latest
after_tail line l =
    if is_nil (strip line)
    then l
    else if part (fields line) 0 == codes "R" && leb 2 (length (fields line))
    then on_lookup_table (fields line) l
    else l

set_version-SameNodes : (o d : Option Text) (l : Latest) → SameNodes l (set_version o d l)
unfolding set_version
set_version-SameNodes none d l = record { headers = refl; nodes = refl }
set_version-SameNodes (some id) none l = record { headers = refl; nodes = refl }
set_version-SameNodes (some id) (some decoded) l = record { headers = refl; nodes = refl }

if-SameNodes :
    (b : Bool) (l l₁ l₂ : Latest)
    → SameNodes l l₁
    → SameNodes l l₂
    → SameNodes l (if b then l₁ else l₂)
if-SameNodes true l l₁ l₂ h k = h
if-SameNodes false l l₁ l₂ h k = k

after_tail-SameNodes : (line : Text) (l : Latest) → SameNodes l (after_tail line l)
unfolding on_lookup_table
after_tail-SameNodes line l =
    let same : SameNodes l l = record { headers = refl; nodes = refl } in
    if-SameNodes (is_nil (strip line)) l l _ same (
      if-SameNodes (part (fields line) 0 == codes "R" && leb 2 (length (fields line))) l
        (on_lookup_table (fields line) l) l
        (set_version-SameNodes _ (decode_text (part (fields line) 1)) l) same)

tail_line : (line : Text) (l : Latest) → IsTail line → ingest_line line l ≡ some (after_tail line l)
unfolding ingest_line on_record
tail_line line l h = ground (arith, h.no_header, h.no_node)

tail_lines :
    (lines : List Text) (l : Latest)
    → All IsTail lines
    → (l' : Latest) × (ingest_lines lines l ≡ some l') × SameNodes l l'
unfolding ingest_lines
tail_lines [] l h = (l, refl, record { headers = refl; nodes = refl })
tail_lines (line ∷ lines) l (h, hs) =
    let (l', runs, same) = tail_lines lines (after_tail line l) hs in
    let first : SameNodes l (after_tail line l) = after_tail-SameNodes line l in
    (
      l',
      rw (tail_line line l h, then_ingest) runs,
      record { headers = same.headers ∙ first.headers; nodes = same.nodes ∙ first.nodes },
    )

then_ingest-append :
    (xs ys : List Text) (o : Option Latest) (l' : Latest)
    → ((l : Latest) → ingest_lines xs l ≡ some l' → ingest_lines (xs ++ ys) l ≡ ingest_lines ys l')
    → then_ingest (ingest_lines xs) o ≡ some l'
    → then_ingest (ingest_lines (xs ++ ys)) o ≡ ingest_lines ys l'
then_ingest-append xs ys none l' f e = absurd (cc)
then_ingest-append xs ys (some l) l' f e = f l e

pub ingest_lines-append :
    (xs ys : List Text) (l l' : Latest)
    → ingest_lines xs l ≡ some l'
    → ingest_lines (xs ++ ys) l ≡ ingest_lines ys l'
unfolding ingest_lines
ingest_lines-append [] ys l l' e = cc
ingest_lines-append (x ∷ xs) ys l l' e =
    then_ingest-append xs ys (ingest_line x l) l' (λ m. ingest_lines-append xs ys m l') e

-- `b` is `a` with the header `h` and the nodes that `st` has for the cluster `id`.
pub record IsEntered (st : Snapshot) (id h : Text) (a b : Latest) : Type 0 where
  pub headers :
      (j : Text)
      → lookup j b.headers ≡ (if j == id then some (make_header (fields h)) else lookup j a.headers)
  pub nodes :
      (j : Text)
      → lookup j b.nodes
        ≡ (if j == id then some (nodes_of (or_else (lookup id st.nodes) [])) else lookup j a.nodes)

entered :
    (st : Snapshot) (id h : Text) (l l₁ l₂ l₃ : Latest)
    → IsSnapshot id h (or_else (lookup id st.nodes) []) l l₁
    → SameNodes l₁ l₂
    → SameNodes l₂ l₃
    → IsEntered st id h l l₃
entered st id h l l₁ l₂ l₃ s r t = record {
  headers = λ j.
      ap (λ d. lookup j d) (t.headers ∙ r.headers ∙ s.headers)
      ∙ lookup-insert j id (make_header (fields h)) l.headers;
  nodes = λ j. ap (λ d. lookup j d) (t.nodes ∙ r.nodes) ∙ s.nodes j;
}

-- The lines of a cluster enter its header and its nodes.
pub block_lines :
    (st : Snapshot) (id h : Text) (l : Latest)
    → IsEvaluable st id h
    → (l' : Latest) × ((rest : List Text)
        → ingest_lines (cluster_lines st id h ++ rest) l ≡ ingest_lines rest l')
      × IsEntered st id h l l'
unfolding cluster_lines
block_lines st id h l e =
    let ns : List Text = or_else (lookup id st.nodes) [] in
    let rs : List Text = optional (lookup id st.r_records) in
    let ts : List Text = optional (lookup id st.t_records) in
    let (l₁, runs₁, snapshot) = ingest-IsSnapshot id h ns l e.header e.no_cloud e.nodes in
    let (l₂, runs₂, same₂) = tail_lines rs l₁ e.r_record in
    let (l₃, runs₃, same₃) = tail_lines ts l₂ e.t_record in
    (
      l₃,
      λ rest.
          ap (λ ls. ingest_lines ls l)
            (append_assoc (h ∷ ns) (rs ++ ts) rest
              ∙ ap (λ ls. (h ∷ ns) ++ ls) (append_assoc rs ts rest))
          ∙ ingest_lines-append (h ∷ ns) (rs ++ (ts ++ rest)) l l₁ runs₁
          ∙ ingest_lines-append rs (ts ++ rest) l₁ l₂ runs₂
          ∙ ingest_lines-append ts rest l₂ l₃ runs₃,
      entered st id h l l₁ l₂ l₃ snapshot same₂ same₃,
    )
