-- ===== src/Receiver/ClusterIds/Union.antt =====
-- The file of ids after a message.
use cluster_size_operator_fo.Prelude.{
  ℕ, ◌≡◌, refl, ◌∙◌, ap, sym, subst, Bool, true, false, ◌&&◌, ◌||◌, not, Option, none, some, List,
  [], ◌∷◌, ◌++◌, contains, nat_eq, list_eq, arith, All, All-append,
}
use cluster_size_operator_fo.Text.{Text}
use cluster_size_operator_fo.Text.Strip.{strip_solid}
use cluster_size_operator_fo.Text.{strip, lstrip, rstrip}
use cluster_size_operator_fo.Receiver.ClusterIds.{
  CidFile, unique, find_ids, discovered_ids, stripped, existing_ids, new_ids, append_ids, start,
  log_ids,
}
use cluster_size_operator_fo.Text.Distinct.{Distinct, contains-append, append-Distinct}
use cluster_size_operator_fo.Receiver.ClusterIds.Sets.{
  contains-unique, unique-Distinct, contains-minus, minus-Distinct,
}
use cluster_size_operator_fo.Receiver.ClusterIds.Found.{
  IsId, IsId-AllSolid, IsId-ne-nil, find_ids-IsId,
}

-- An order in which the items of a set can be passed over.
pub record IsArrangement (arrange : List Text → List Text) : Type 0 where
  pub same : (xs : List Text) (x : Text) → contains (arrange xs) x ≡ contains xs x
  pub distinct : (xs : List Text) → Distinct xs → Distinct (arrange xs)

All-contains :
    (P : Text → Type 0) (xs : List Text) (x : Text) → All P xs → contains xs x ≡ true → P x
All-contains P [] x h k = absurd (cc)
All-contains P (y ∷ xs) x (h, hs) k = ground (arith, All-contains P xs x hs)

contains-All :
    (P : Text → Type 0) (xs : List Text) → ((x : Text) → contains xs x ≡ true → P x) → All P xs
contains-All P [] f = tt
contains-All P (x ∷ xs) f = (f x (ground arith), contains-All P xs (λ y k. f y (ground arith)))

stripped-ids : (ids : List Text) → All IsId ids → stripped ids ≡ ids
unfolding stripped
stripped-ids [] h = refl
stripped-ids ([] ∷ ids) (h, hs) = absurd (IsId-ne-nil [] h refl)
stripped-ids ((c ∷ id) ∷ ids) (h, hs) =
    rw (strip_solid (c ∷ id) (IsId-AllSolid (c ∷ id) h), stripped-ids ids hs) refl

stripped-append :
    (lines ids : List Text) → All IsId ids → stripped (lines ++ ids) ≡ stripped lines ++ ids
unfolding stripped
stripped-append [] ids h = stripped-ids ids h
stripped-append (line ∷ lines) ids h = ground (arith, stripped-append lines ids h)

-- The last line of the file ends with a newline, if there is a file.
abbrev pub IsEnded : Option CidFile → Type 0
IsEnded none = Unit
IsEnded (some f) = f.tail ≡ []

stripped-end : (lines : List Text) → stripped (lines ++ [] ∷ []) ≡ stripped lines
unfolding stripped
stripped-end [] = unfold strip lstrip rstrip in refl
stripped-end (line ∷ lines) = ground (arith, stripped-end lines)

ended_lines : (f : CidFile) → f.tail ≡ [] → stripped (f.lines ++ f.tail ∷ []) ≡ stripped f.lines
ended_lines f e = ap (λ (t : Text). stripped (f.lines ++ t ∷ [])) e ∙ stripped-end f.lines

behind_end :
    (tail : Text) (lines ids : List Text) (id : Text)
    → tail ≡ []
    → lines ++ (tail ++ id) ∷ ids ≡ lines ++ id ∷ ids
behind_end tail lines ids id e = ap (λ (t : Text). lines ++ (t ++ id) ∷ ids) e

pub append_ids-IsEnded :
    (ids : List Text) (cid_file : Option CidFile)
    → IsEnded cid_file
    → IsEnded (append_ids ids cid_file)
unfolding append_ids
append_ids-IsEnded [] cid_file h = h
append_ids-IsEnded (id ∷ ids) cid_file h = refl

-- The ids of the file after ids were appended to it.
pub contains-append_ids :
    (ids : List Text) (cid_file : Option CidFile) (x : Text)
    → All IsId ids
    → IsEnded cid_file
    → contains (existing_ids (append_ids ids cid_file)) x
      ≡ (contains (existing_ids cid_file) x || contains ids x)
unfolding append_ids existing_ids
contains-append_ids [] none x h e = refl
contains-append_ids [] (some f) x h e = ground arith
contains-append_ids (id ∷ ids) none x h e =
    contains-unique (stripped ((id ∷ ids) ++ [] ∷ [])) x
    ∙ ap (λ xs. contains xs x) (stripped-end (id ∷ ids) ∙ stripped-ids (id ∷ ids) h)
contains-append_ids (id ∷ ids) (some f) x h e =
    contains-unique (stripped ((f.lines ++ (f.tail ++ id) ∷ ids) ++ [] ∷ [])) x
    ∙ ap (λ xs. contains xs x)
        (stripped-end (f.lines ++ (f.tail ++ id) ∷ ids)
          ∙ ap stripped (behind_end f.tail f.lines ids id e)
          ∙ stripped-append f.lines (id ∷ ids) h)
    ∙ contains-append (stripped f.lines) (id ∷ ids) x
    ∙ ap (λ b. b || contains (id ∷ ids) x)
        (sym (contains-unique (stripped f.lines) x)
          ∙ ap (λ xs. contains (unique xs) x) (sym (ended_lines f e)))

module _ (arrange : List Text → List Text) (wide_word : ℕ → Bool) (arranged : IsArrangement arrange)
    (raw_text : Text) (cid_file : Option CidFile) where
  pub contains-start :
      (x : Text)
      → contains (start arrange wide_word raw_text cid_file) x ≡ (
          contains (discovered_ids wide_word raw_text) x
          && not (contains (existing_ids cid_file) x))
  unfolding new_ids
  contains-start x =
      arranged.same _ x
      ∙ contains-minus (discovered_ids wide_word raw_text) (existing_ids cid_file) x

  pub start-IsId : All IsId (start arrange wide_word raw_text cid_file)
  unfolding discovered_ids
  start-IsId = contains-All IsId (start arrange wide_word raw_text cid_file) (λ x k.
      All-contains IsId (find_ids wide_word false 0 raw_text) x
        (find_ids-IsId wide_word false 0 raw_text)
        (ground (arith, contains-start x, contains-unique (find_ids wide_word false 0 raw_text) x)))

  start-Distinct : Distinct (start arrange wide_word raw_text cid_file)
  unfolding new_ids discovered_ids
  start-Distinct = arranged.distinct _ (
      minus-Distinct _ (existing_ids cid_file)
        (unique-Distinct (find_ids wide_word false 0 raw_text)))

  pub log_ids-union :
      (x : Text)
      → IsEnded cid_file
      → contains (existing_ids (log_ids arrange wide_word raw_text cid_file)) x
        ≡ (contains (existing_ids cid_file) x || contains (discovered_ids wide_word raw_text) x)
  unfolding log_ids
  log_ids-union x e =
      contains-append_ids (start arrange wide_word raw_text cid_file) cid_file x start-IsId e
      ∙ ground (arith, contains-start x)

-- A file of ids, each on one line, which a newline ends.
abbrev pub IsIdFile : Option CidFile → Type 0
IsIdFile none = Unit
IsIdFile (some f) = (f.tail ≡ []) × All IsId f.lines × Distinct f.lines

IsIdFile-IsEnded : (cid_file : Option CidFile) → IsIdFile cid_file → IsEnded cid_file
IsIdFile-IsEnded none h = tt
IsIdFile-IsEnded (some f) (e, rows, once) = e

existing-ids :
    (f : CidFile) (x : Text)
    → f.tail ≡ []
    → All IsId f.lines
    → contains (existing_ids (some f)) x ≡ contains f.lines x
unfolding existing_ids
existing-ids f x e h =
    contains-unique (stripped (f.lines ++ f.tail ∷ [])) x
    ∙ ap (λ xs. contains xs x) (ended_lines f e ∙ stripped-ids f.lines h)

append_ids-IsIdFile :
    (ids : List Text) (cid_file : Option CidFile)
    → All IsId ids
    → Distinct ids
    → ((x : Text) → contains ids x ≡ true → contains (existing_ids cid_file) x ≡ false)
    → IsIdFile cid_file
    → IsIdFile (append_ids ids cid_file)
unfolding append_ids
append_ids-IsIdFile [] cid_file h d apart f = f
append_ids-IsIdFile (id ∷ ids) none h d apart f = (refl, h, d)
append_ids-IsIdFile (id ∷ ids) (some f) h d apart (e, rows, once) = (
  refl,
  subst (All IsId) (sym (behind_end f.tail f.lines ids id e))
      (All-append IsId f.lines (id ∷ ids) rows h),
  subst Distinct (sym (behind_end f.tail f.lines ids id e)) (
      append-Distinct f.lines (id ∷ ids) once d (λ x k. sym (existing-ids f x e rows) ∙ apart x k)),
)

-- If each line of the file of ids is an id, which a newline ends, and no id stands twice, or there is no file yet, then the same holds after a
-- message, and the file has the ids that it had before and those that the message names, and no others.
pub log_ids_exact :
    (arrange : List Text → List Text) (wide_word : ℕ → Bool) (raw_text : Text)
    (cid_file : Option CidFile)
    → IsArrangement arrange
    → IsIdFile cid_file
    → IsIdFile (log_ids arrange wide_word raw_text cid_file)
      × ((x : Text)
          → contains (existing_ids (log_ids arrange wide_word raw_text cid_file)) x ≡ (
              contains (existing_ids cid_file) x || contains (discovered_ids wide_word raw_text) x))
log_ids_exact arrange wide_word raw_text cid_file arranged f = (
  unfold log_ids in
      append_ids-IsIdFile (start arrange wide_word raw_text cid_file) cid_file
        (start-IsId arrange wide_word arranged raw_text cid_file)
        (start-Distinct arrange wide_word arranged raw_text cid_file)
        (λ x k. ground (arith, contains-start arrange wide_word arranged raw_text cid_file x)) f,
  λ x. log_ids-union arrange wide_word arranged raw_text cid_file x (IsIdFile-IsEnded cid_file f),
)
