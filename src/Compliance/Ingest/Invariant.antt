-- ===== src/Compliance/Ingest/Invariant.antt =====
-- The lists of nodes of the clusters while the file is read.
use cluster_size_operator_fo.Prelude.{
  ◌≡◌, refl, subst, Bool, true, false, not, Option, none, some, List, [], ◌∷◌, ◌++◌, list_eq,
  nat_eq, arith, ◌==◌, ◌&&◌, if◌then◌else◌, inl, inr, Option-cases, All, All-append, leb, length,
  ◌≢◌, ap, get_or,
}
use cluster_size_operator_fo.Text.{Text, codes, read_lines, strip, split}
use cluster_size_operator_fo.Text.Number.{count_raises}
use cluster_size_operator_fo.Dict.{lookup, insert, has_key, or_else}
use cluster_size_operator_fo.Dict.Laws.{lookup-insert}
use cluster_size_operator_fo.Compliance.{Node, Latest}
use cluster_size_operator_fo.Compliance.Ingest.{
  empty, part, header_raises, read_header, node_raises, read_node, on_header, make_header,
  make_node, append_node, on_node, set_version, on_lookup_table, on_record, ingest_line,
  then_ingest, ingest_lines, ingest,
}

-- The clusters with nodes are those with a header.
pub record IsConsistent (st : Latest) : Type 0 where
  pub same : (id : Text) → has_key id st.nodes ≡ has_key id st.headers

-- `int` can read the counts of a line, if it is a header or a node.
abbrev pub is_readable : List Text → Bool
is_readable parts =
    if part parts 0 == codes "H"
    then not (count_raises (part parts 2))
    else if part parts 0 == codes "N"
    then not (count_raises (part parts 4))
    else true

-- The fields of a line as the loop takes them.
abbrev pub parts_of : Text → List Text
parts_of line = split b',' (strip line)

abbrev pub IsReadable : Text → Type 0
IsReadable line = is_readable (parts_of line) ≡ true

read_header-on_header :
    (parts : List Text) (st : Latest)
    → count_raises (part parts 2) ≡ false
    → read_header parts st ≡ some (on_header parts st)
unfolding read_header header_raises
read_header-on_header parts st h = ground arith

read_node-on_node :
    (parts : List Text) (st : Latest)
    → count_raises (part parts 4) ≡ false
    → read_node parts st ≡ on_node parts st
unfolding read_node node_raises
read_node-on_node parts st h = ground arith

readable_header :
    (parts : List Text)
    → is_readable parts ≡ true
    → part parts 0 ≡ codes "H"
    → count_raises (part parts 2) ≡ false
readable_header parts r e = ground arith

node-ne-header : codes "N" ≢ codes "H"
node-ne-header h = omega (arith, ap (λ (t : Text). get_or t 0 0) h)

readable_node :
    (parts : List Text)
    → is_readable parts ≡ true
    → part parts 0 ≡ codes "N"
    → count_raises (part parts 4) ≡ false
readable_node parts r e = ground (arith, node-ne-header)

module _ (P : Node → Type 0) where
  -- The state is consistent, and each of its nodes has the property.
  pub record IsLoaded (st : Latest) : Type 0 where
    pub same : (id : Text) → has_key id st.nodes ≡ has_key id st.headers
    pub each : (id : Text) → All P (or_else (lookup id st.nodes) [])

  -- The result is such a state, and not a failure.
  pub data Reads : Option Latest → Type 0 where
    reads : {st : Latest} → IsLoaded st → Reads (some st)

  inserted :
      (j id : Text) (ns : List Node) (st : Latest)
      → All P ns
      → All P (or_else (lookup j st.nodes) [])
      → All P (or_else (lookup j (insert id ns st.nodes)) [])
  inserted j id ns st h k = ground (arith, lookup-insert j id ns st.nodes)

  renewed-IsLoaded : (parts : List Text) (st : Latest) → IsLoaded st → IsLoaded (on_header parts st)
  unfolding on_header
  renewed-IsLoaded parts st h = record {
    same = λ id. ground (
      arith,
      h.same id,
      lookup-insert id (part parts 1) [] st.nodes,
      lookup-insert id (part parts 1) (make_header parts) st.headers,
    );
    each = λ id. ground (arith, h.each id, inserted id (part parts 1) [] st tt (h.each id));
  }

  set_version-IsLoaded :
      (id decoded : Option Text) (st : Latest) → IsLoaded st → IsLoaded (set_version id decoded st)
  unfolding set_version
  set_version-IsLoaded none decoded st h = h
  set_version-IsLoaded (some id) none st h = h
  set_version-IsLoaded (some id) (some decoded) st h = record { same = h.same; each = h.each }

  appended-IsLoaded :
      (id : Text) (ns : List Node) (node : Node) (st : Latest)
      → IsLoaded st
      → P node
      → lookup id st.nodes ≡ some ns
      → IsLoaded (record st { nodes = insert id (ns ++ node ∷ []) st.nodes })
  appended-IsLoaded id ns node st h p e = record {
    same = λ j. ground (arith, h.same j, h.same id, lookup-insert j id (ns ++ node ∷ []) st.nodes);
    each = λ j.
        inserted j id (ns ++ node ∷ []) st
          (All-append P ns (node ∷ []) (subst (λ o. All P (or_else o [])) e (h.each id)) (p, tt))
          (h.each j);
  }

  append_node-Reads :
      (id : Text) (node : Node) (st : Latest)
      → IsLoaded st
      → P node
      → has_key id st.headers ≡ true
      → Reads (append_node id node st)
  unfolding append_node
  append_node-Reads id node st h p k = elim (Option-cases (lookup id st.nodes)) [
    | inl e ↦ absurd (ground (arith, h.same id))
    | inr (ns, e) ↦ rw (e, append_node) (reads (appended-IsLoaded id ns node st h p e))
  ]

  Reads-if :
      (b : Bool) (x y : Option Latest)
      → (b ≡ true → Reads x)
      → (b ≡ false → Reads y)
      → Reads (if b then x else y)
  Reads-if true x y h k = h refl
  Reads-if false x y h k = k refl

  on_node-Reads :
      (parts : List Text) (st : Latest)
      → IsLoaded st
      → P (make_node parts)
      → Reads (on_node parts st)
  unfolding on_node
  on_node-Reads parts st h p = search (Reads-if, reads, append_node-Reads)

  header-Reads :
      (parts : List Text) (st : Latest)
      → IsLoaded st
      → count_raises (part parts 2) ≡ false
      → Reads (read_header parts st)
  header-Reads parts st h r =
      rw (read_header-on_header parts st r) (reads (renewed-IsLoaded parts st h))

  node-Reads :
      (parts : List Text) (st : Latest)
      → IsLoaded st
      → P (make_node parts)
      → count_raises (part parts 4) ≡ false
      → Reads (read_node parts st)
  node-Reads parts st h p r = rw (read_node-on_node parts st r) (on_node-Reads parts st h p)

  lookup-Reads :
      (parts : List Text) (st : Latest) → IsLoaded st → Reads (some (on_lookup_table parts st))
  unfolding on_lookup_table
  lookup-Reads parts st h = reads (set_version-IsLoaded _ _ st h)

  on_record-Reads :
      (parts : List Text) (st : Latest)
      → IsLoaded st
      → P (make_node parts)
      → is_readable parts ≡ true
      → Reads (on_record parts st)
  unfolding on_record
  on_record-Reads parts st h p r =
      Reads-if (part parts 0 == codes "H" && leb 8 (length parts)) _ _
        (λ e. header-Reads parts st h (readable_header parts r (ground arith)))
        (λ e.
          Reads-if (part parts 0 == codes "N" && leb 6 (length parts)) _ _
            (λ f. node-Reads parts st h p (readable_node parts r (ground arith)))
            (λ f.
              Reads-if (part parts 0 == codes "R" && leb 2 (length parts))
                (some (on_lookup_table parts st)) (some st) (λ g. lookup-Reads parts st h)
                (λ g. reads h)))

  -- `int` can read the counts of the line, and what it says of a node has the property.
  abbrev pub IsGood : Text → Type 0
  IsGood line = IsReadable line × P (make_node (parts_of line))

  ingest_line-Reads :
      (line : Text) (st : Latest) → IsGood line → IsLoaded st → Reads (ingest_line line st)
  unfolding ingest_line
  ingest_line-Reads line st (r, p) h =
      Reads-if _ _ _ (λ e. reads h) (λ e. on_record-Reads (parts_of line) st h p r)

  then_ingest-Reads :
      (f : Latest → Option Latest) (o : Option Latest)
      → Reads o
      → ((st : Latest) → IsLoaded st → Reads (f st))
      → Reads (then_ingest f o)
  then_ingest-Reads f o (reads {st} h) k = k st h

  ingest_lines-Reads :
      (lines : List Text) (st : Latest)
      → All IsGood lines
      → IsLoaded st
      → Reads (ingest_lines lines st)
  unfolding ingest_lines
  ingest_lines-Reads [] st g h = reads h
  ingest_lines-Reads (line ∷ lines) st (g, gs) h =
      then_ingest-Reads (ingest_lines lines) (ingest_line line st) (ingest_line-Reads line st g h)
        (λ st'. ingest_lines-Reads lines st' gs)

  empty-IsLoaded : IsLoaded empty
  unfolding lookup
  empty-IsLoaded = record { same = λ id. refl; each = λ id. tt }

  Reads-some : (o : Option Latest) → Reads o → (st : Latest) × (o ≡ some st) × IsLoaded st
  Reads-some o (reads {st} h) = (st, refl, h)

  pub ingest-IsLoaded :
      (file : Text)
      → All IsGood (read_lines file)
      → (st : Latest) × (ingest file ≡ some st) × IsLoaded st
  unfolding ingest
  ingest-IsLoaded file g =
      Reads-some (ingest file) (ingest_lines-Reads (read_lines file) empty g empty-IsLoaded)

readable-IsGood : (lines : List Text) → All IsReadable lines → All (IsGood (λ node. Unit)) lines
readable-IsGood [] h = tt
readable-IsGood (line ∷ lines) (h, hs) = ((h, tt), readable-IsGood lines hs)

-- Reading a file succeeds if `int` can read the counts of its headers and nodes, and leaves a state in
-- which the clusters with nodes are those with a header.
pub ingest-IsConsistent :
    (file : Text)
    → All IsReadable (read_lines file)
    → (st : Latest) × (ingest file ≡ some st) × IsConsistent st
ingest-IsConsistent file h =
    let (st, runs, l) = ingest-IsLoaded (λ node. Unit) file (readable-IsGood (read_lines file) h) in
    (st, runs, record { same = l.same })
