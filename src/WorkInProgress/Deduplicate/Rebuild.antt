-- ===== src/WorkInProgress/Deduplicate/Rebuild.antt =====
-- The lines of a cluster in the output, read into dictionaries that do not have it.
use cluster_size_operator_fo.Prelude.{
  ◌≡◌, refl, ◌∙◌, ap, sym, subst, false, Option, none, some, List, [], ◌∷◌, ◌++◌, append-nil,
  append_assoc, ◌==◌, contains, list_eq, nat_eq, if◌then◌else◌, arith, All,
}
use cluster_size_operator_fo.Text.{Text, codes}
use cluster_size_operator_fo.Dict.{keys, last, lookup, insert, or_else}
use cluster_size_operator_fo.Dict.Laws.{lookup-insert, keys-insert, last-append}
use cluster_size_operator_fo.Dedup.Records.{
  Snapshot, on_node, put_r, put_t, optional, cluster_lines,
}
use cluster_size_operator_fo.WorkInProgress.Deduplicate.{on_header, on_record, read_line, read_log}
use cluster_size_operator_fo.WorkInProgress.Deduplicate.Clean.{IsTagged, IsRecordOf, IsClean}

pub read_log-append :
    (xs ys : List Text) (st : Snapshot) → read_log (xs ++ ys) st ≡ read_log ys (read_log xs st)
unfolding read_log
read_log-append [] ys st = refl
read_log-append (x ∷ xs) ys st = read_log-append xs ys (read_line x st)

header_line :
    (id line : Text) (s : Snapshot)
    → IsRecordOf (codes "H") id line
    → read_line line s
      ≡ record s { headers = insert id line s.headers; nodes = insert id [] s.nodes }
unfolding read_line on_record on_header
header_line id line s r =
    rw (r.base.stripped, r.base.solid, r.base.tagged, r.long, r.cluster) (ground arith)

node_line :
    (id line : Text) (s : Snapshot)
    → IsRecordOf (codes "N") id line
    → read_line line s
      ≡ record s { nodes = insert id (or_else (lookup id s.nodes) [] ++ line ∷ []) s.nodes }
unfolding read_line on_record on_node
node_line id line s r =
    rw (r.base.stripped, r.base.solid, r.base.tagged, r.long, r.cluster) (ground arith)

r_line :
    (line : Text) (s : Snapshot)
    → IsTagged (codes "R") line
    → read_line line s ≡ put_r (last (keys s.headers)) line s
unfolding read_line on_record
r_line line s r = rw (r.stripped, r.solid, r.tagged) (ground arith)

t_line :
    (line : Text) (s : Snapshot)
    → IsTagged (codes "T") line
    → read_line line s ≡ put_t (last (keys s.headers)) line s
unfolding read_line on_record
t_line line s r = rw (r.stripped, r.solid, r.tagged) (ground arith)

-- `b` is `a` with the nodes `ns` of the cluster `id`.
record HasNodes (id : Text) (ns : List Text) (a b : Snapshot) : Type 0 where
  headers : b.headers ≡ a.headers
  nodes : (j : Text) → lookup j b.nodes ≡ (if j == id then some ns else lookup j a.nodes)
  r_records : b.r_records ≡ a.r_records
  t_records : b.t_records ≡ a.t_records

node_lines :
    (id : Text) (lines ns : List Text) (s : Snapshot)
    → All (IsRecordOf (codes "N") id) lines
    → lookup id s.nodes ≡ some ns
    → HasNodes id (ns ++ lines) s (read_log lines s)
unfolding read_log
node_lines id [] ns s h e = record {
  headers = refl;
  nodes = λ j. rw append-nil (ground arith);
  r_records = refl;
  t_records = refl;
}
node_lines id (line ∷ lines) ns s (h, hs) e =
    let s₁ : Snapshot = record s { nodes = insert id (ns ++ line ∷ []) s.nodes } in
    let first : read_line line s ≡ s₁ = node_line id line s h ∙ rw e refl in
    let rest : HasNodes id ((ns ++ line ∷ []) ++ lines) s₁ (read_log lines s₁) =
      node_lines id lines (ns ++ line ∷ []) s₁ hs
        (ground (arith, lookup-insert id id (ns ++ line ∷ []) s.nodes)) in
    subst (λ x. HasNodes id (ns ++ line ∷ lines) s (read_log lines x)) (sym first)
      (record {
        headers = rest.headers;
        nodes = λ j.
            rest.nodes j
            ∙ ground (
              arith,
              lookup-insert j id (ns ++ line ∷ []) s.nodes,
              append_assoc ns (line ∷ []) lines,
            );
        r_records = rest.r_records;
        t_records = rest.t_records;
      })

-- `b` is `a` with all that `st` has for the cluster `id`, which is new.
pub record IsRebuilt (st : Snapshot) (id h : Text) (a b : Snapshot) : Type 0 where
  pub ids : keys b.headers ≡ keys a.headers ++ id ∷ []
  pub headers : (j : Text) → lookup j b.headers ≡ (if j == id then some h else lookup j a.headers)
  pub nodes :
      (j : Text)
      → lookup j b.nodes
        ≡ (if j == id then some (or_else (lookup id st.nodes) []) else lookup j a.nodes)
  pub r_records :
      (j : Text)
      → lookup j b.r_records ≡ (if j == id then lookup id st.r_records else lookup j a.r_records)
  pub t_records :
      (j : Text)
      → lookup j b.t_records ≡ (if j == id then lookup id st.t_records else lookup j a.t_records)

-- `b` is `a` but for the `R` record of the cluster `id`, which is `o`.
record HasR (id : Text) (o : Option Text) (a b : Snapshot) : Type 0 where
  headers : b.headers ≡ a.headers
  nodes : b.nodes ≡ a.nodes
  r_records : (j : Text) → lookup j b.r_records ≡ (if j == id then o else lookup j a.r_records)
  t_records : b.t_records ≡ a.t_records

record HasT (id : Text) (o : Option Text) (a b : Snapshot) : Type 0 where
  headers : b.headers ≡ a.headers
  nodes : b.nodes ≡ a.nodes
  r_records : b.r_records ≡ a.r_records
  t_records : (j : Text) → lookup j b.t_records ≡ (if j == id then o else lookup j a.t_records)

r_done :
    (id : Text) (o : Option Text) (s : Snapshot)
    → last (keys s.headers) ≡ some id
    → lookup id s.r_records ≡ none
    → ((r : Text) → o ≡ some r → IsTagged (codes "R") r)
    → HasR id o s (read_log (optional o) s)
unfolding read_log put_r
r_done id none s e fresh h = record {
  headers = refl;
  nodes = refl;
  r_records = λ j. ground arith;
  t_records = refl;
}
r_done id (some r) s e fresh h =
    subst (λ x. HasR id (some r) s x) (sym (r_line r s (h r refl) ∙ rw (e, put_r) refl))
      (record {
        headers = refl;
        nodes = refl;
        r_records = λ j. lookup-insert j id r s.r_records;
        t_records = refl;
      })

t_done :
    (id : Text) (o : Option Text) (s : Snapshot)
    → last (keys s.headers) ≡ some id
    → lookup id s.t_records ≡ none
    → ((t : Text) → o ≡ some t → IsTagged (codes "T") t)
    → HasT id o s (read_log (optional o) s)
unfolding read_log put_t
t_done id none s e fresh h = record {
  headers = refl;
  nodes = refl;
  r_records = refl;
  t_records = λ j. ground arith;
}
t_done id (some t) s e fresh h =
    subst (λ x. HasT id (some t) s x) (sym (t_line t s (h t refl) ∙ rw (e, put_t) refl))
      (record {
        headers = refl;
        nodes = refl;
        r_records = refl;
        t_records = λ j. lookup-insert j id t s.t_records;
      })

-- Nothing is kept for the cluster `id`.
pub record IsNew (id : Text) (s : Snapshot) : Type 0 where
  pub no_header : contains (keys s.headers) id ≡ false
  pub no_r : lookup id s.r_records ≡ none
  pub no_t : lookup id s.t_records ≡ none

joined :
    (st : Snapshot) (id h : Text) (s s₁ s₂ s₃ s₄ : Snapshot)
    → s₁ ≡ record s { headers = insert id h s.headers; nodes = insert id [] s.nodes }
    → contains (keys s.headers) id ≡ false
    → HasNodes id (or_else (lookup id st.nodes) []) s₁ s₂
    → HasR id (lookup id st.r_records) s₂ s₃
    → HasT id (lookup id st.t_records) s₃ s₄
    → IsRebuilt st id h s s₄
joined st id h s s₁ s₂ s₃ s₄ e new n r t =
    let heads : s₄.headers ≡ insert id h s.headers =
      t.headers ∙ r.headers ∙ n.headers ∙ ap (λ (x : Snapshot). x.headers) e in
    record {
      ids = ap (λ d. keys d) heads ∙ keys-insert id h s.headers ∙ rw new refl;
      headers = λ j. ap (λ d. lookup j d) heads ∙ lookup-insert j id h s.headers;
      nodes = λ j.
          ap (λ d. lookup j d) (t.nodes ∙ r.nodes)
          ∙ n.nodes j
          ∙ ground
              (arith, ap (λ (x : Snapshot). lookup j x.nodes) e, lookup-insert j id [] s.nodes);
      r_records = λ j.
          ap (λ d. lookup j d) t.r_records
          ∙ r.r_records j
          ∙ ap (λ d. if j == id then lookup id st.r_records else lookup j d)
              (n.r_records ∙ ap (λ (x : Snapshot). x.r_records) e);
      t_records = λ j.
          t.t_records j
          ∙ ap (λ d. if j == id then lookup id st.t_records else lookup j d)
              (r.t_records ∙ n.t_records ∙ ap (λ (x : Snapshot). x.t_records) e);
    }

pub cluster_lines-IsRebuilt :
    (st : Snapshot) (id h : Text) (s : Snapshot)
    → IsClean st
    → lookup id st.headers ≡ some h
    → IsNew id s
    → IsRebuilt st id h s (read_log (cluster_lines st id h) s)
unfolding read_log cluster_lines
cluster_lines-IsRebuilt st id h s c e new =
    let ns : List Text = or_else (lookup id st.nodes) [] in
    let rs : List Text = optional (lookup id st.r_records) in
    let ts : List Text = optional (lookup id st.t_records) in
    let s₁ : Snapshot = read_line h s in
    let s₂ : Snapshot = read_log ns s₁ in
    let s₃ : Snapshot = read_log rs s₂ in
    let begun : s₁ ≡ record s { headers = insert id h s.headers; nodes = insert id [] s.nodes } =
      header_line id h s (c.headers id h e) in
    let n : HasNodes id ns s₁ s₂ = node_lines id ns [] s₁ (c.nodes id) (
      ap (λ (x : Snapshot). lookup id x.nodes) begun
      ∙ ground (arith, lookup-insert id id [] s.nodes)) in
    let ids : keys s₂.headers ≡ keys s.headers ++ id ∷ [] =
      ap (λ d. keys d) (n.headers ∙ ap (λ (x : Snapshot). x.headers) begun)
      ∙ keys-insert id h s.headers
      ∙ rw new.no_header refl in
    let newest : last (keys s₂.headers) ≡ some id =
      ap (λ ks. last ks) ids ∙ last-append (keys s.headers) id in
    let r : HasR id (lookup id st.r_records) s₂ s₃ =
      r_done id (lookup id st.r_records) s₂ newest
        (ap (λ d. lookup id d) (n.r_records ∙ ap (λ (x : Snapshot). x.r_records) begun) ∙ new.no_r)
        (c.r_records id) in
    let t : HasT id (lookup id st.t_records) s₃ (read_log ts s₃) =
      t_done id (lookup id st.t_records) s₃ (ap (λ d. last (keys d)) r.headers ∙ newest)
        (ap (λ d. lookup id d)
            (r.t_records ∙ n.t_records ∙ ap (λ (x : Snapshot). x.t_records) begun)
          ∙ new.no_t)
        (c.t_records id) in
    subst (λ x. IsRebuilt st id h s x)
      (sym (read_log-append ns (rs ++ ts) s₁ ∙ read_log-append rs ts s₂))
      (joined st id h s s₁ s₂ s₃ (read_log ts s₃) begun new.no_header n r t)
