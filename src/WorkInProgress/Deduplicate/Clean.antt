-- ===== src/WorkInProgress/Deduplicate/Clean.antt =====
-- What holds of the dictionaries while logs are read.
use cluster_size_operator_fo.Prelude.{
  ◌≡◌, refl, subst, Bool, true, false, ◌&&◌, Option, none, some, List, [], ◌∷◌, ◌++◌, length, leb,
  ◌==◌, contains, list_eq, nat_eq, if◌then◌else◌, arith, All, All-append,
}
use cluster_size_operator_fo.Text.{Text, codes, strip, split, is_nil}
use cluster_size_operator_fo.Text.Strip.{strip_idem}
use cluster_size_operator_fo.Text.Distinct.{Distinct, append-Distinct}
use cluster_size_operator_fo.Dict.{Dict, keys, last, lookup, insert, or_else}
use cluster_size_operator_fo.Dict.Laws.{lookup-insert, keys-insert}
use cluster_size_operator_fo.Compliance.Ingest.{part}
use cluster_size_operator_fo.Dedup.Records.{Snapshot, empty, on_node, put_r, put_t}
use cluster_size_operator_fo.WorkInProgress.Deduplicate.{on_header, on_record, read_line, read_log}

abbrev pub parts_of : Text → List Text
parts_of line = split b',' line

-- A stripped line with the tag `tag`.
pub record IsTagged (tag line : Text) : Type 0 where
  pub stripped : strip line ≡ line
  pub solid : is_nil line ≡ false
  pub tagged : part (parts_of line) 0 ≡ tag

-- A record with the tag `tag` of the cluster `id`.
pub record IsRecordOf (tag id line : Text) : Type 0 where
  pub base : IsTagged tag line
  pub long : leb 2 (length (parts_of line)) ≡ true
  pub cluster : part (parts_of line) 1 ≡ id

pub record IsClean (st : Snapshot) : Type 0 where
  pub headers : (id h : Text) → lookup id st.headers ≡ some h → IsRecordOf (codes "H") id h
  pub nodes : (id : Text) → All (IsRecordOf (codes "N") id) (or_else (lookup id st.nodes) [])
  pub r_records : (id r : Text) → lookup id st.r_records ≡ some r → IsTagged (codes "R") r
  pub t_records : (id t : Text) → lookup id st.t_records ≡ some t → IsTagged (codes "T") t
  pub once : Distinct (keys st.headers)

insert-once :
    (id h : Text) (d : Dict Text Text) → Distinct (keys d) → Distinct (keys (insert id h d))
insert-once id h d k = rw (keys-insert id h d) (pick (contains (keys d) id) refl)
  where
    pick :
        (b : Bool) → contains (keys d) id ≡ b → Distinct (if b then keys d else keys d ++ id ∷ [])
    pick true e = k
    pick false e = append-Distinct (keys d) (id ∷ []) k (refl, tt) (λ x m. ground (arith))

inserted :
    (P : Text → Text → Type 0) (id v : Text) (d : Dict Text Text)
    → P id v
    → ((j w : Text) → lookup j d ≡ some w → P j w)
    → (j w : Text) → lookup j (insert id v d) ≡ some w
    → P j w
inserted P id v d p h j w e = ground (arith, lookup-insert j id v d, h j w)

nodes_after :
    (P : Text → Text → Type 0) (id : Text) (ns : List Text) (d : Dict Text (List Text))
    → All (P id) ns
    → ((j : Text) → All (P j) (or_else (lookup j d) []))
    → (j : Text) → All (P j) (or_else (lookup j (insert id ns d)) [])
nodes_after P id ns d p h j = rw (lookup-insert j id ns d) (pick (j == id) refl)
  where
    pick : (b : Bool) → (j == id) ≡ b → All (P j) (or_else (if b then some ns else lookup j d) [])
    pick true e = let same : id ≡ j = ground arith in subst (λ i. All (P i) ns) same p
    pick false e = h j

on_header-IsClean :
    (line : Text) (st : Snapshot)
    → IsRecordOf (codes "H") (part (parts_of line) 1) line
    → IsClean st
    → IsClean (on_header line (parts_of line) st)
unfolding on_header
on_header-IsClean line st r c = record {
  headers = inserted (IsRecordOf (codes "H")) (part (parts_of line) 1) line st.headers r c.headers;
  nodes = nodes_after (IsRecordOf (codes "N")) (part (parts_of line) 1) [] st.nodes tt c.nodes;
  r_records = c.r_records;
  t_records = c.t_records;
  once = insert-once (part (parts_of line) 1) line st.headers c.once;
}

on_node-IsClean :
    (line : Text) (st : Snapshot)
    → IsRecordOf (codes "N") (part (parts_of line) 1) line
    → IsClean st
    → IsClean (on_node line (parts_of line) st)
unfolding on_node
on_node-IsClean line st r c = record {
  headers = c.headers;
  nodes =
      nodes_after (IsRecordOf (codes "N")) (part (parts_of line) 1)
        (or_else (lookup (part (parts_of line) 1) st.nodes) [] ++ line ∷ []) st.nodes
        (All-append (IsRecordOf (codes "N") (part (parts_of line) 1)) _ (line ∷ [])
          (c.nodes (part (parts_of line) 1)) (r, tt))
        c.nodes;
  r_records = c.r_records;
  t_records = c.t_records;
  once = c.once;
}

put_r-IsClean :
    (o : Option Text) (line : Text) (st : Snapshot)
    → IsTagged (codes "R") line
    → IsClean st
    → IsClean (put_r o line st)
unfolding put_r
put_r-IsClean none line st r c = c
put_r-IsClean (some id) line st r c = record {
  headers = c.headers;
  nodes = c.nodes;
  r_records = inserted (λ j. IsTagged (codes "R")) id line st.r_records r c.r_records;
  t_records = c.t_records;
  once = c.once;
}

put_t-IsClean :
    (o : Option Text) (line : Text) (st : Snapshot)
    → IsTagged (codes "T") line
    → IsClean st
    → IsClean (put_t o line st)
unfolding put_t
put_t-IsClean none line st r c = c
put_t-IsClean (some id) line st r c = record {
  headers = c.headers;
  nodes = c.nodes;
  r_records = c.r_records;
  t_records = inserted (λ j. IsTagged (codes "T")) id line st.t_records r c.t_records;
  once = c.once;
}

IsTagged-line :
    (tag line : Text)
    → strip line ≡ line
    → is_nil line ≡ false
    → (part (parts_of line) 0 == tag) ≡ true
    → IsTagged tag line
IsTagged-line tag line s n e = record { stripped = s; solid = n; tagged = ground arith }

record_line :
    (tag line : Text)
    → strip line ≡ line
    → is_nil line ≡ false
    → (part (parts_of line) 0 == tag && leb 2 (length (parts_of line))) ≡ true
    → IsRecordOf tag (part (parts_of line) 1) line
record_line tag line s n e = record {
  base = IsTagged-line tag line s n (ground arith);
  long = ground arith;
  cluster = refl;
}

if-IsClean :
    (b : Bool) (x y : Snapshot)
    → (b ≡ true → IsClean x)
    → (b ≡ false → IsClean y)
    → IsClean (if b then x else y)
if-IsClean true x y h k = h refl
if-IsClean false x y h k = k refl

on_record-IsClean :
    (line : Text) (st : Snapshot)
    → strip line ≡ line
    → is_nil line ≡ false
    → IsClean st
    → IsClean (on_record line (parts_of line) st)
unfolding on_record
on_record-IsClean line st s n c =
    if-IsClean _ _ _ (λ e. on_header-IsClean line st (record_line (codes "H") line s n e) c)
      (λ e.
        if-IsClean _ _ _ (λ f. on_node-IsClean line st (record_line (codes "N") line s n f) c)
          (λ f.
            if-IsClean _ _ _
              (λ g.
                put_r-IsClean (last (keys st.headers)) line st
                  (IsTagged-line (codes "R") line s n g) c)
              (λ g.
                if-IsClean _ _ _
                  (λ i.
                    put_t-IsClean (last (keys st.headers)) line st
                      (IsTagged-line (codes "T") line s n i) c)
                  (λ i. c))))

read_line-IsClean : (raw : Text) (st : Snapshot) → IsClean st → IsClean (read_line raw st)
unfolding read_line
read_line-IsClean raw st c =
    if-IsClean (is_nil (strip raw)) _ _ (λ e. c)
      (λ e. on_record-IsClean (strip raw) st (strip_idem raw) e c)

pub read_log-IsClean :
    (lines : List Text) (st : Snapshot) → IsClean st → IsClean (read_log lines st)
unfolding read_log
read_log-IsClean [] st c = c
read_log-IsClean (line ∷ lines) st c =
    read_log-IsClean lines (read_line line st) (read_line-IsClean line st c)

pub empty-IsClean : IsClean empty
unfolding lookup
empty-IsClean = record {
  headers = λ id h e. absurd (cc);
  nodes = λ id. tt;
  r_records = λ id r e. absurd (cc);
  t_records = λ id t e. absurd (cc);
  once = tt;
}
