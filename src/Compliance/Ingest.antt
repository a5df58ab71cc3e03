-- ===== src/Compliance/Ingest.antt =====
-- The loop of `run_evaluation` that reads the deduplicated file into the dictionaries of the clusters.
pub mod Invariant
pub mod Reset
pub mod Versions
use cluster_size_operator_fo.Prelude.{
  ℕ, Bool, true, false, ◌&&◌, not, Option, none, some, List, [], ◌∷◌, ◌++◌, length, get_or, leb,
  contains, ◌==◌, list_eq, nat_eq, if◌then◌else◌,
}
use cluster_size_operator_fo.Text.{
  Text, codes, strip, split, split_once, lower, upper, is_nil, read_lines,
}
use cluster_size_operator_fo.Text.Number.{count_of, count_raises}
use cluster_size_operator_fo.Base64.{decode_text}
use cluster_size_operator_fo.Dict.{Dict, keys, last, lookup, insert, has_key, or_else}
use cluster_size_operator_fo.Compliance.{Header, Node, Version, Latest, clean_val, not_available}

abbrev pub empty : Latest
empty = record { headers = []; nodes = []; versions = [] }

-- `parts[i]`, at an index that the length of `parts` allows.
abbrev pub part : List Text → ℕ → Text
part parts i = get_or parts i []

abbrev pub cloud_platforms : List Text
cloud_platforms = codes "aws" ∷ codes "aro" ∷ codes "azure" ∷ []

unfoldable pub make_header : List Text → Header
make_header parts = record {
  cluster_id = part parts 1;
  platform = clean_val (part parts 5);
  cluster_version = codes "4.20";
  cluster_initial_version = not_available;
  cluster_node_count = count_of (part parts 2);
  cluster_installed_at = clean_val (part parts 4);
  support = upper (strip (part parts 3));
  last_update_received = clean_val (part parts 6);
}

unfoldable pub on_header : List Text → Latest → Latest
on_header parts st =
    if contains cloud_platforms (lower (strip (part parts 5))) then st else record st {
      headers = insert (part parts 1) (make_header parts) st.headers;
      nodes = insert (part parts 1) [] st.nodes;
    }

unfoldable pub make_node : List Text → Node
make_node parts = record {
  hostname = clean_val (part parts 2);
  roles = clean_val (part parts 3);
  architecture = upper (clean_val (part parts 5));
  cpu_raw = count_of (part parts 4);
  memory = not_available;
}

-- `latest_nodes[cluster_id].append(node)`; `none` is the `KeyError`.
unfoldable pub append_node : Text → Node → Latest → Option Latest
append_node id node st = elim (lookup id st.nodes) [
  | none ↦ none
  | some ns ↦ some (record st { nodes = insert id (ns ++ node ∷ []) st.nodes })
]

unfoldable pub on_node : List Text → Latest → Option Latest
on_node parts st =
    if has_key (part parts 1) st.headers
    then append_node (part parts 1) (make_node parts) st
    else some st

-- Whether `int` raises a `ValueError` on the count of a header that is not skipped.
unfoldable pub header_raises : List Text → Bool
header_raises parts =
    not (contains cloud_platforms (lower (strip (part parts 5)))) && count_raises (part parts 2)

-- An `H` record; `none` is the `ValueError`.
unfoldable pub read_header : List Text → Latest → Option Latest
read_header parts st = if header_raises parts then none else some (on_header parts st)

-- Whether `int` raises a `ValueError` on the CPUs of a node that is not skipped.
unfoldable pub node_raises : List Text → Latest → Bool
node_raises parts st = has_key (part parts 1) st.headers && count_raises (part parts 4)

-- An `N` record; `none` is an exception.
unfoldable pub read_node : List Text → Latest → Option Latest
read_node parts st = if node_raises parts st then none else on_node parts st

abbrev put_item : Option (Text × Text) → Dict Text Text → Dict Text Text
put_item none m = m
put_item (some (k, v)) m = insert (strip k) (strip v) m

-- The items `index=value` of a decoded lookup table.
unfoldable pub version_map : List Text → Dict Text Text → Dict Text Text
version_map [] m = m
version_map (item ∷ items) m = version_map items (put_item (split_once b'=' item) m)

unfoldable pub make_version : Text → Version
make_version decoded =
    let m = version_map (split b',' decoded) [] in
    record {
      current = or_else (lookup (codes "1") m) (codes "4.20");
      initial = or_else (lookup (codes "2") m) not_available;
    }

-- The last key of the headers gets the versions, if there is one and the text can be decoded.
unfoldable pub set_version : Option Text → Option Text → Latest → Latest
set_version (some id) (some decoded) st = record st {
  versions = insert id (make_version decoded) st.versions;
}
set_version _ _ st = st

unfoldable pub on_lookup_table : List Text → Latest → Latest
on_lookup_table parts st = set_version (last (keys st.headers)) (decode_text (part parts 1)) st

unfoldable pub on_record : List Text → Latest → Option Latest
on_record parts st =
    if part parts 0 == codes "H" && leb 8 (length parts)
    then read_header parts st
    else if part parts 0 == codes "N" && leb 6 (length parts)
    then read_node parts st
    else if part parts 0 == codes "R" && leb 2 (length parts)
    then some (on_lookup_table parts st)
    else some st

-- The loop's body.
unfoldable pub ingest_line : Text → Latest → Option Latest
ingest_line raw st = if is_nil (strip raw) then some st else on_record (split b',' (strip raw)) st

abbrev pub then_ingest : (Latest → Option Latest) → Option Latest → Option Latest
then_ingest f none = none
then_ingest f (some st) = f st

unfoldable pub ingest_lines : List Text → Latest → Option Latest
ingest_lines [] st = some st
ingest_lines (line ∷ lines) st = then_ingest (ingest_lines lines) (ingest_line line st)

unfoldable pub ingest : Text → Option Latest
ingest file = ingest_lines (read_lines file) empty
