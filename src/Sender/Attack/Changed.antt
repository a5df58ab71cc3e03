-- ===== src/Sender/Attack/Changed.antt =====
-- What a scenario does to the rows.
use cluster_size_operator_fo.Prelude.{
  ℕ, zero, suc, ◌<◌, ◌≡◌, ◌≢◌, refl, ◌∙◌, ap, sym, true, List, [], ◌∷◌, ◌++◌, arith, All, length,
  get_or, set, drop, subst, nat_eq, list_eq,
}
use cluster_size_operator_fo.Text.{Text, codes, starts_with, has_infix}
use cluster_size_operator_fo.Receiver.Message.{is_protected}
use cluster_size_operator_fo.Sender.Payload.{node_rows, lookup_row, always}
use cluster_size_operator_fo.Sender.Payload.Lines.{IsPlain, IsRow}
use cluster_size_operator_fo.Sender.Payload.Rows.{
  header_row-IsRow, node_rows-IsRow, lookup_row-IsRow, parts-IsRow,
}
use cluster_size_operator_fo.Sender.Attack.{
  replace_from, replace, change, node_count, attack_lookup_str, pristine_lines,
}
use cluster_size_operator_fo.Sender.Attack.Replace.{
  replace_from-All, replace-changes, has_infix-behind, set-All, set-changes,
}

-- A cluster id and another one, as `uuid4` makes them: they have one length and other characters than
-- those in front of an id in a row.
pub record AreIds (cluster_id other_id : Text) : Type 0 where
  pub plain : All IsPlain cluster_id
  pub other_plain : All IsPlain other_id
  pub some_text : cluster_id ≢ []
  pub start : (get_or cluster_id 0 0 ≢ b'N') × (get_or cluster_id 0 0 ≢ b',')
  pub same_length : length other_id ≡ length cluster_id
  pub different : other_id ≢ cluster_id

-- The rows after a scenario.
pub record IsChanged (cluster_id : Text) (now_epoch : ℕ) (lines : List Text) : Type 0 where
  pub rows : All IsRow lines
  pub some_row : lines ≢ []
  pub differs : lines ≢ pristine_lines cluster_id now_epoch

pub pristine_lines-IsRow :
    (cluster_id : Text) (now_epoch : ℕ)
    → All IsPlain cluster_id
    → All IsRow (pristine_lines cluster_id now_epoch)
unfolding pristine_lines
pristine_lines-IsRow cluster_id now_epoch h = (
  header_row-IsRow cluster_id node_count now_epoch 100000 h,
  parts-IsRow (node_rows cluster_id (always (codes "3")) (codes "40") 1 3)
      (node_rows cluster_id (always (codes "4")) (codes "40") 4 6)
      (node_rows cluster_id (always (codes "5")) (codes "50") 10 31) (lookup_row attack_lookup_str)
      (node_rows-IsRow cluster_id (always (codes "3")) (codes "40") 1 3 h (λ j. omega arith)
        (omega arith))
      (node_rows-IsRow cluster_id (always (codes "4")) (codes "40") 4 6 h (λ j. omega arith)
        (omega arith))
      (node_rows-IsRow cluster_id (always (codes "5")) (codes "50") 10 31 h (λ j. omega arith)
        (omega arith))
      (lookup_row-IsRow attack_lookup_str (omega arith)),
)

length-pristine_lines :
    (cluster_id : Text) (now_epoch : ℕ) → length (pristine_lines cluster_id now_epoch) ≡ 42
unfolding pristine_lines
length-pristine_lines cluster_id now_epoch = refl

pristine_lines-ne-nil :
    (cluster_id : Text) (now_epoch : ℕ) → pristine_lines cluster_id now_epoch ≢ []
unfolding pristine_lines
pristine_lines-ne-nil cluster_id now_epoch h = cc

-- A part that starts with a comma is replaced by another one: the tag of a row stays.
comma-protected :
    (o n : Text) (a : ℕ) (rest : Text)
    → a ≢ b','
    → is_protected (a ∷ b',' ∷ rest) ≡ true
    → is_protected (replace (b',' ∷ o) (b',' ∷ n) (a ∷ b',' ∷ rest)) ≡ true
unfolding replace_from starts_with
comma-protected o n a rest h k = ground arith

replaced-IsRow :
    (o n : Text) (a : ℕ) (rest : Text)
    → a ≢ b','
    → All IsPlain n
    → IsRow (a ∷ b',' ∷ rest)
    → IsRow (replace (b',' ∷ o) (b',' ∷ n) (a ∷ b',' ∷ rest))
replaced-IsRow o n a rest h k r = record {
  protected = comma-protected o n a rest h r.protected;
  plain =
      replace_from-All IsPlain (b',' ∷ o) (b',' ∷ n) 0 (a ∷ b',' ∷ rest)
        ((omega arith, omega arith), k) r.plain;
}

set-ne-nil : (lines : List Text) (i : ℕ) (v : Text) → lines ≢ [] → set lines i v ≢ []
set-ne-nil [] i v h e = h e
set-ne-nil (line ∷ lines) zero v h e = cc
set-ne-nil (line ∷ lines) (suc i) v h e = cc

module _ (cluster_id : Text) (now_epoch : ℕ) (plain : All IsPlain cluster_id) where
  -- One row is set to another one.
  pub set_row :
      (i : ℕ) (v : Text)
      → i < 42
      → IsRow v
      → v ≢ get_or (pristine_lines cluster_id now_epoch) i []
      → IsChanged cluster_id now_epoch (set (pristine_lines cluster_id now_epoch) i v)
  set_row i v h r d = record {
    rows =
        set-All IsRow (pristine_lines cluster_id now_epoch) i v
          (pristine_lines-IsRow cluster_id now_epoch plain) r;
    some_row =
        set-ne-nil (pristine_lines cluster_id now_epoch) i v
          (pristine_lines-ne-nil cluster_id now_epoch);
    differs =
        set-changes (pristine_lines cluster_id now_epoch) i v
          (omega (arith, length-pristine_lines cluster_id now_epoch)) d;
  }

  -- The part `,o` behind the id of a row is replaced by `,n`, where `o` and `n` start differently.
  pub replaced_part :
      (i : ℕ) (o n : Text) (a : ℕ) (tail : Text)
      → i < 42
      → a ≢ b','
      → All IsPlain n
      → get_or (pristine_lines cluster_id now_epoch) i [] ≡ a ∷ b',' ∷ (cluster_id ++ tail)
      → IsRow (a ∷ b',' ∷ (cluster_id ++ tail))
      → has_infix (b',' ∷ o) tail ≡ true
      → ((x y : Text) → n ++ x ≢ o ++ y)
      → IsChanged cluster_id now_epoch
          (change i (replace (b',' ∷ o) (b',' ∷ n)) (pristine_lines cluster_id now_epoch))
  replaced_part i o n a tail h ha hn here r inside clash =
      let line : Text = a ∷ b',' ∷ (cluster_id ++ tail) in
      subst
        (λ l.
          IsChanged cluster_id now_epoch
            (set (pristine_lines cluster_id now_epoch) i (replace (b',' ∷ o) (b',' ∷ n) l)))
        (sym here)
        (set_row i (replace (b',' ∷ o) (b',' ∷ n) line) h
          (replaced-IsRow o n a (cluster_id ++ tail) ha hn r)
          (λ e.
            replace-changes (b',' ∷ o) (b',' ∷ n) (λ q. cc)
              (λ x y q. clash x y (ap (λ (t : Text). drop 1 t) q)) line
              (has_infix-behind (b',' ∷ o) (a ∷ b',' ∷ cluster_id) tail inside) (e ∙ here)))

  pub removed_row :
      (lines : List Text)
      → All IsRow lines
      → 0 < length lines
      → length lines ≢ 42
      → IsChanged cluster_id now_epoch lines
  removed_row lines r some_row d = record {
    rows = r;
    some_row = λ e. omega (arith, ap (λ (ls : List Text). length ls) e, some_row);
    differs =
        λ e. d (ap (λ (ls : List Text). length ls) e ∙ length-pristine_lines cluster_id now_epoch);
  }
