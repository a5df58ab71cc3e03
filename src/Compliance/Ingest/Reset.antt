-- ===== src/Compliance/Ingest/Reset.antt =====
-- A header starts its cluster afresh, and the node records behind it are collected in order.
use cluster_size_operator_fo.Prelude.{
  ◌≡◌, refl, ◌∙◌, true, false, some, List, [], ◌∷◌, ◌++◌, append-nil, append_assoc, list_eq, nat_eq,
  arith, contains, ◌==◌, if◌then◌else◌, length, leb, All,
}
use cluster_size_operator_fo.Text.{Text, codes, strip, split, is_nil, lower}
use cluster_size_operator_fo.Text.Number.{count_raises}
use cluster_size_operator_fo.Dict.{lookup, insert, has_key}
use cluster_size_operator_fo.Dict.Laws.{lookup-insert}
use cluster_size_operator_fo.Compliance.{Node, Latest}
use cluster_size_operator_fo.Compliance.Ingest.{
  part, cloud_platforms, read_header, header_raises, read_node, node_raises, on_header, make_header,
  make_node, append_node, on_node, on_lookup_table, on_record, ingest_line, ingest_lines,
}

-- The fields of a line.
abbrev pub fields : Text → List Text
fields line = split b',' (strip line)

abbrev pub platform_of : List Text → Text
platform_of parts = lower (strip (part parts 5))

-- The line is an `H` record of the cluster `id`, whose count `int` can read, if it is
-- read at all.
pub record IsHeaderLine (id line : Text) : Type 0 where
  pub solid : is_nil (strip line) ≡ false
  pub tag : part (fields line) 0 ≡ codes "H"
  pub long : leb 8 (length (fields line)) ≡ true
  pub readable : header_raises (fields line) ≡ false
  pub cluster : part (fields line) 1 ≡ id

-- The line is an `N` record of the cluster `id`, with a count that `int` can read.
pub record IsNodeLine (id line : Text) : Type 0 where
  pub solid : is_nil (strip line) ≡ false
  pub tag : part (fields line) 0 ≡ codes "N"
  pub long : leb 6 (length (fields line)) ≡ true
  pub readable : count_raises (part (fields line) 4) ≡ false
  pub cluster : part (fields line) 1 ≡ id

-- The line is an `R` record.
pub record IsLookupLine (line : Text) : Type 0 where
  pub solid : is_nil (strip line) ≡ false
  pub tag : part (fields line) 0 ≡ codes "R"
  pub long : leb 2 (length (fields line)) ≡ true

pub ingest_header :
    (id line : Text) (st : Latest)
    → IsHeaderLine id line
    → ingest_line line st ≡ some (on_header (fields line) st)
unfolding ingest_line on_record read_header
ingest_header id line st h = rw (h.solid, h.tag, h.long) (ground (arith, h.readable))

ingest_node :
    (id line : Text) (st : Latest)
    → IsNodeLine id line
    → ingest_line line st ≡ on_node (fields line) st
unfolding ingest_line on_record read_node node_raises
ingest_node id line st h = rw (h.solid, h.tag, h.long) (ground (arith, h.readable))

pub ingest_lookup :
    (line : Text) (st : Latest)
    → IsLookupLine line
    → ingest_line line st ≡ some (on_lookup_table (fields line) st)
unfolding ingest_line on_record
ingest_lookup line st h = rw (h.solid, h.tag, h.long) (ground arith)

-- The nodes that the lines describe, in their order.
abbrev pub nodes_of : List Text → List Node
nodes_of [] = []
nodes_of (line ∷ lines) = make_node (fields line) ∷ nodes_of lines

-- `b` is `a` but for the nodes of the cluster `id`, which are `ns`.
pub record WithNodes (id : Text) (ns : List Node) (a b : Latest) : Type 0 where
  pub nodes : (j : Text) → lookup j b.nodes ≡ (if j == id then some ns else lookup j a.nodes)
  pub headers : b.headers ≡ a.headers
  pub versions : b.versions ≡ a.versions

WithNodes-trans :
    (id : Text) (ms ns : List Node) (a b c : Latest)
    → WithNodes id ms a b
    → WithNodes id ns b c
    → WithNodes id ns a c
WithNodes-trans id ms ns a b c h k = record {
  nodes = λ j. ground (arith, k.nodes j, h.nodes j);
  headers = k.headers ∙ h.headers;
  versions = k.versions ∙ h.versions;
}

append_node-WithNodes :
    (id : Text) (node : Node) (ns : List Node) (st : Latest)
    → lookup id st.nodes ≡ some ns
    → (st' : Latest) × (append_node id node st ≡ some st') × WithNodes id (ns ++ node ∷ []) st st'
unfolding append_node
append_node-WithNodes id node ns st e = (
  record st { nodes = insert id (ns ++ node ∷ []) st.nodes },
  rw (e, append_node),
  record {
    nodes = λ j. lookup-insert j id (ns ++ node ∷ []) st.nodes;
    headers = refl;
    versions = refl;
  },
)

node_line-WithNodes :
    (id line : Text) (ns : List Node) (st : Latest)
    → IsNodeLine id line
    → has_key id st.headers ≡ true
    → lookup id st.nodes ≡ some ns
    → (st' : Latest) × (ingest_line line st ≡ some st')
      × WithNodes id (ns ++ make_node (fields line) ∷ []) st st'
unfolding on_node
node_line-WithNodes id line ns st h k e =
    let (st', runs, with) = append_node-WithNodes id (make_node (fields line)) ns st e in
    (st', ingest_node id line st h ∙ rw (h.cluster, k) runs, with)

ingest_node_lines :
    (id : Text) (lines : List Text) (ns : List Node) (st : Latest)
    → All (IsNodeLine id) lines
    → has_key id st.headers ≡ true
    → lookup id st.nodes ≡ some ns
    → (st' : Latest) × (ingest_lines lines st ≡ some st')
      × WithNodes id (ns ++ nodes_of lines) st st'
unfolding ingest_lines
ingest_node_lines id [] ns st h k e = (
  st,
  refl,
  record { nodes = λ j. rw append-nil (ground arith); headers = refl; versions = refl },
)
ingest_node_lines id (line ∷ lines) ns st (h, hs) k e =
    let (st₁, runs₁, with₁) = node_line-WithNodes id line ns st h k e in
    let (st₂, runs₂, with₂) =
      ingest_node_lines id lines (ns ++ make_node (fields line) ∷ []) st₁ hs (rw with₁.headers k)
        (with₁.nodes id ∙ ground arith) in
    (st₂, rw runs₁ runs₂, rw (append_assoc) at (WithNodes-trans id _ _ st st₁ st₂ with₁ with₂))

-- `b` is `a` with the header of `header` and the nodes of `lines` for the cluster `id`.
pub record IsSnapshot (id header : Text) (lines : List Text) (a b : Latest) : Type 0 where
  pub headers : b.headers ≡ insert id (make_header (fields header)) a.headers
  pub nodes :
      (j : Text) → lookup j b.nodes ≡ (if j == id then some (nodes_of lines) else lookup j a.nodes)
  pub versions : b.versions ≡ a.versions

abbrev renewed : Text → List Text → Latest → Latest
renewed id parts st = record st {
  headers = insert id (make_header parts) st.headers;
  nodes = insert id [] st.nodes;
}

header_line :
    (id header : Text) (st : Latest)
    → IsHeaderLine id header
    → contains cloud_platforms (platform_of (fields header)) ≡ false
    → ingest_line header st ≡ some (renewed id (fields header) st)
unfolding on_header
header_line id header st h cloudless =
    ingest_header id header st h ∙ rw (cloudless, on_header, h.cluster)

-- After the `H` record of a cluster on no cloud platform, and `N` records of that cluster, the headers
-- are those from before with that header inserted, the cluster has exactly the nodes of those records,
-- in order, whatever was read before, and the nodes of the other clusters and all versions are kept.
pub ingest-IsSnapshot :
    (id header : Text) (lines : List Text) (st : Latest)
    → IsHeaderLine id header
    → contains cloud_platforms (platform_of (fields header)) ≡ false
    → All (IsNodeLine id) lines
    → (st' : Latest) × (ingest_lines (header ∷ lines) st ≡ some st')
      × IsSnapshot id header lines st st'
unfolding ingest_lines
ingest-IsSnapshot id header lines st h cloudless hs =
    let parts = fields header in
    let (st', runs, with) =
      ingest_node_lines id lines [] (renewed id parts st) hs
        (ground (arith, lookup-insert id id (make_header parts) st.headers))
        (ground (arith, lookup-insert id id [] st.nodes)) in
    (
      st',
      rw (header_line id header st h cloudless) runs,
      record {
        headers = with.headers;
        nodes = λ j. ground (arith, with.nodes j, lookup-insert j id [] st.nodes);
        versions = with.versions;
      },
    )
