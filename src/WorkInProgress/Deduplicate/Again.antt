-- ===== src/WorkInProgress/Deduplicate/Again.antt =====
-- Deduplicating an output.
use cluster_size_operator_fo.Prelude.{
  ◌≡◌, refl, ◌∙◌, ap, sym, subst, true, false, Option, none, some, List, [], ◌∷◌, ◌++◌,
  append_assoc, append-nil, ◌==◌, contains, eq_self, list_eq, nat_eq, if◌then◌else◌, arith, All,
}
use cluster_size_operator_fo.Text.{Text, read_lines}
use cluster_size_operator_fo.Text.Order.{sorted, All-sorted}
use cluster_size_operator_fo.Text.Distinct.{Distinct, contains-append, sorted-Distinct, sorted_idem}
use cluster_size_operator_fo.Dict.{Dict, keys, lookup, or_else, has_key}
use cluster_size_operator_fo.Dict.Laws.{All-has_key, is_some-some}
use cluster_size_operator_fo.Lifecycle.{◌>>=◌}
use cluster_size_operator_fo.Dedup.Records.{
  Snapshot, empty, cluster_lines, output_for, output_lines,
}
use cluster_size_operator_fo.WorkInProgress.Deduplicate.{read_log, read_files, deduplicate}
use cluster_size_operator_fo.WorkInProgress.Deduplicate.Clean.{
  IsClean, read_log-IsClean, empty-IsClean,
}
use cluster_size_operator_fo.WorkInProgress.Deduplicate.Rebuild.{
  read_log-append, IsRebuilt, IsNew, cluster_lines-IsRebuilt,
}

-- `b` is `a` with all that `st` has for the clusters `ids`, which are new.
record AreRebuilt (st : Snapshot) (ids : List Text) (a b : Snapshot) : Type 0 where
  order : keys b.headers ≡ keys a.headers ++ ids
  headers :
      (j : Text)
      → lookup j b.headers ≡ (if contains ids j then lookup j st.headers else lookup j a.headers)
  nodes :
      (j : Text)
      → lookup j b.nodes
        ≡ (if contains ids j then some (or_else (lookup j st.nodes) []) else lookup j a.nodes)
  r_records :
      (j : Text)
      → lookup j b.r_records
        ≡ (if contains ids j then lookup j st.r_records else lookup j a.r_records)
  t_records :
      (j : Text)
      → lookup j b.t_records
        ≡ (if contains ids j then lookup j st.t_records else lookup j a.t_records)

still-IsNew :
    (st : Snapshot) (id h j : Text) (s s₁ : Snapshot)
    → (j == id) ≡ false
    → IsNew j s
    → IsRebuilt st id h s s₁
    → IsNew j s₁
still-IsNew st id h j s s₁ other new r = record {
  no_header =
      ap (λ ks. contains ks j) r.ids
      ∙ contains-append (keys s.headers) (id ∷ []) j
      ∙ ground (arith, new.no_header);
  no_r = r.r_records j ∙ ground (arith, new.no_r);
  no_t = r.t_records j ∙ ground (arith, new.no_t);
}

next_rebuilt :
    (st : Snapshot) (id h : Text) (ids : List Text) (s s₁ s₂ : Snapshot)
    → lookup id st.headers ≡ some h
    → IsRebuilt st id h s s₁
    → AreRebuilt st ids s₁ s₂
    → AreRebuilt st (id ∷ ids) s s₂
next_rebuilt st id h ids s s₁ s₂ e first rest = record {
  order = rest.order ∙ ap (λ ks. ks ++ ids) first.ids ∙ append_assoc (keys s.headers) (id ∷ []) ids;
  headers = λ j. ground (arith, rest.headers j, first.headers j);
  nodes = λ j. ground (arith, rest.nodes j, first.nodes j);
  r_records = λ j. ground (arith, rest.r_records j, first.r_records j);
  t_records = λ j. ground (arith, rest.t_records j, first.t_records j);
}

module _ (st : Snapshot) (c : IsClean st) where
  ids_rebuilt :
      (ids : List Text) (s : Snapshot)
      → Distinct ids
      → All (λ id. has_key id st.headers ≡ true) ids
      → ((j : Text) → contains ids j ≡ true → IsNew j s)
      → (out : List Text) × (output_for st ids ≡ some out) × AreRebuilt st ids s (read_log out s)
  unfolding output_for read_log
  ids_rebuilt [] s d k new = (
    [],
    refl,
    record {
      order = sym (append-nil (keys s.headers));
      headers = λ j. refl;
      nodes = λ j. refl;
      r_records = λ j. refl;
      t_records = λ j. refl;
    },
  )
  ids_rebuilt (id ∷ ids) s (d, ds) (k, ks) new =
      let (h, e) = is_some-some (lookup id st.headers) k in
      let s₁ : Snapshot = read_log (cluster_lines st id h) s in
      let first : IsRebuilt st id h s s₁ =
        cluster_lines-IsRebuilt st id h s c e (new id (ground (arith, eq_self id))) in
      let (rest, runs, others) =
        ids_rebuilt ids s₁ ds ks
          (λ j m. still-IsNew st id h j s s₁ (ground arith) (new j (ground arith)) first) in
      (
        cluster_lines st id h ++ rest,
        rw (e, ◌>>=◌, runs) refl,
        subst (λ x. AreRebuilt st (id ∷ ids) s x)
            (sym (read_log-append (cluster_lines st id h) rest s))
            (next_rebuilt st id h ids s s₁ (read_log rest s₁) e first others),
      )

-- The two have the same lines for the cluster `j`.
record IsAlike (a b : Snapshot) (j : Text) : Type 0 where
  headers : lookup j a.headers ≡ lookup j b.headers
  nodes : or_else (lookup j a.nodes) [] ≡ or_else (lookup j b.nodes) []
  r_records : lookup j a.r_records ≡ lookup j b.r_records
  t_records : lookup j a.t_records ≡ lookup j b.t_records

output_for_alike :
    (a b : Snapshot) (ids : List Text)
    → ((j : Text) → contains ids j ≡ true → IsAlike a b j)
    → output_for a ids ≡ output_for b ids
unfolding output_for cluster_lines
output_for_alike a b [] f = refl
output_for_alike a b (id ∷ ids) f =
    let s : IsAlike a b id = f id (ground (arith, eq_self id)) in
    rw
      (
        s.headers,
        s.nodes,
        s.r_records,
        s.t_records,
        output_for_alike a b ids (λ j m. f j (ground arith)),
      )
      refl

opened-IsClean :
    (dir : Dict Text Text) (names : List Text) (st st' : Snapshot) (o : Option Text)
    → ((file : Text)
        → read_files dir names (read_log (read_lines file) st) ≡ some st'
        → IsClean st')
    → (o >>= (λ file. read_files dir names (read_log (read_lines file) st))) ≡ some st'
    → IsClean st'
opened-IsClean dir names st st' none f e = absurd (cc)
opened-IsClean dir names st st' (some file) f e = f file e

read_files-IsClean :
    (dir : Dict Text Text) (names : List Text) (st st' : Snapshot)
    → IsClean st
    → read_files dir names st ≡ some st'
    → IsClean st'
unfolding read_files
read_files-IsClean dir [] st st' c e = let same : st ≡ st' = cc in subst IsClean same c
read_files-IsClean dir (name ∷ names) st st' c e =
    opened-IsClean dir names st st' (lookup name dir)
      (λ file.
        read_files-IsClean dir names (read_log (read_lines file) st) st'
          (read_log-IsClean (read_lines file) st c))
      e

alike :
    (st : Snapshot) (ids : List Text) (b : Snapshot)
    → AreRebuilt st ids empty b
    → (j : Text) → contains ids j ≡ true
    → IsAlike b st j
alike st ids b r j m = record {
  headers = ground (arith, r.headers j);
  nodes = ground (arith, ap (λ o. or_else o []) (r.nodes j));
  r_records = ground (arith, r.r_records j);
  t_records = ground (arith, r.t_records j);
}

output_lines_again :
    (st : Snapshot) (out : List Text)
    → IsClean st
    → output_lines st ≡ some out
    → output_lines (read_log out empty) ≡ some out
unfolding output_lines lookup
output_lines_again st out c e =
    let ids : List Text = sorted (keys st.headers) in
    let (out', runs, r) =
      ids_rebuilt st c ids empty (sorted-Distinct (keys st.headers) c.once)
        (All-sorted (λ id. has_key id st.headers ≡ true) (keys st.headers) (All-has_key st.headers))
        (λ j m. record { no_header = refl; no_r = refl; no_t = refl }) in
    let same : out' ≡ out = cc in
    subst (λ o. output_for (read_log o empty) (sorted (keys (read_log o empty).headers)) ≡ some o)
      same
      (ap (λ ks. output_for (read_log out' empty) (sorted ks)) r.order
        ∙ ap (λ ks. output_for (read_log out' empty) ks) (sorted_idem (keys st.headers))
        ∙ output_for_alike (read_log out' empty) st ids (alike st ids (read_log out' empty) r)
        ∙ runs)

deduplicated-IsClean :
    (o : Option Snapshot) (out : List Text)
    → ((st : Snapshot) → o ≡ some st → IsClean st)
    → (o >>= output_lines) ≡ some out
    → output_lines (read_log out empty) ≡ some out
deduplicated-IsClean none out f e = absurd (cc)
deduplicated-IsClean (some st) out f e = output_lines_again st out (f st refl) e

-- Deduplicating the output of the earlier variant again changes nothing: if it writes some lines, then reading these lines
-- alone leads to the same lines.
pub deduplicate_idem :
    (dir : Dict Text Text) (names out : List Text)
    → deduplicate dir names ≡ some out
    → output_lines (read_log out empty) ≡ some out
unfolding deduplicate
deduplicate_idem dir names out e =
    deduplicated-IsClean (read_files dir names empty) out
      (λ st h. read_files-IsClean dir names empty st empty-IsClean h) e
