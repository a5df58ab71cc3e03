-- ===== src/Dedup/Records/Lines.antt =====
-- What one line of a log does, by the tag of its record.
use cluster_size_operator_fo.Prelude.{
  ◌≡◌, ◌∙◌, true, false, some, List, [], list_eq, nat_eq, arith, length, leb, set, ℕ,
}
use cluster_size_operator_fo.Text.{Text, codes, strip, starts_with, is_nil, join}
use cluster_size_operator_fo.Dates.Stamp.{TimeError}
use cluster_size_operator_fo.Dict.{insert, keys, last}
use cluster_size_operator_fo.Compliance.Ingest.{part}
use cluster_size_operator_fo.Compliance.Ingest.Reset.{fields}
use cluster_size_operator_fo.Lifecycle.{◌>>=◌}
use cluster_size_operator_fo.Dedup.Records.{
  Snapshot, format_epoch_string, on_header, on_node, put_r, put_t, on_record, read_line,
}

-- The line is a record with the tag `tag`, with at least `n` fields.
pub record IsRecord (tag : Text) (n : ℕ) (line : Text) : Type 0 where
  pub solid : is_nil (strip line) ≡ false
  pub no_comment : starts_with (codes "#") (strip line) ≡ false
  pub tagged : part (fields line) 0 ≡ tag
  pub long : leb n (length (fields line)) ≡ true

abbrev pub cluster_of : Text → Text
cluster_of line = part (fields line) 1

-- The header line with its two moments converted.
abbrev pub dated : List Text → Text → Text → Text
dated parts installed updated = join b',' (set (set parts 4 installed) 6 updated)

-- The state behind a header: the header is inserted, and the list of nodes is empty.
abbrev pub renewed : Text → Text → Snapshot → Snapshot
renewed id text st = record st {
  headers = insert id text st.headers;
  nodes = insert id [] st.nodes;
}

module _ (late : ℕ → TimeError) where
  pub read_header :
      (line : Text) (st : Snapshot)
      → IsRecord (codes "H") 8 line
      → read_line late line st ≡ on_header late (fields line) st
  unfolding read_line on_record
  read_header line st h = rw (h.solid, h.no_comment, h.tagged, h.long) (ground arith)

  pub read_node :
      (line : Text) (st : Snapshot)
      → IsRecord (codes "N") 2 line
      → read_line late line st ≡ some (on_node (strip line) (fields line) st)
  unfolding read_line on_record
  read_node line st h = rw (h.solid, h.no_comment, h.tagged, h.long) (ground arith)

  pub read_r :
      (line : Text) (st : Snapshot)
      → IsRecord (codes "R") 0 line
      → read_line late line st ≡ some (put_r (last (keys st.headers)) (strip line) st)
  unfolding read_line on_record
  read_r line st h = rw (h.solid, h.no_comment, h.tagged) (ground arith)

  pub read_t :
      (line : Text) (st : Snapshot)
      → IsRecord (codes "T") 0 line
      → read_line late line st ≡ some (put_t (last (keys st.headers)) (strip line) st)
  unfolding read_line on_record
  read_t line st h = rw (h.solid, h.no_comment, h.tagged) (ground arith)

  pub header_done :
      (line : Text) (st : Snapshot) (installed updated : Text)
      → IsRecord (codes "H") 8 line
      → format_epoch_string late (part (fields line) 4) ≡ some installed
      → format_epoch_string late (part (fields line) 6) ≡ some updated
      → read_line late line st
        ≡ some (renewed (cluster_of line) (dated (fields line) installed updated) st)
  unfolding on_header
  header_done line st installed updated h k l = read_header line st h ∙ rw (k, ◌>>=◌, l)
