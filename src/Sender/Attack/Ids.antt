-- ===== src/Sender/Attack/Ids.antt =====
-- The replacement of the cluster id in a row.
use cluster_size_operator_fo.Prelude.{
  ◌≡◌, ◌≢◌, refl, true, [], ◌∷◌, ◌++◌, arith, length, get_or, nat_eq,
}
use cluster_size_operator_fo.Text.{Text, starts_with, has_infix}
use cluster_size_operator_fo.Receiver.Message.{is_protected}
use cluster_size_operator_fo.Sender.Payload.Lines.{IsPlain, IsRow}
use cluster_size_operator_fo.Sender.Attack.{replace_from, replace}
use cluster_size_operator_fo.Sender.Attack.Replace.{
  replace_from-All, replace-changes, has_infix-behind,
}
use cluster_size_operator_fo.Sender.Attack.Changed.{AreIds}

pub append-same_length : (p q x y : Text) → length p ≡ length q → p ++ x ≡ q ++ y → p ≡ q
append-same_length [] [] x y h e = refl
append-same_length [] (d ∷ q) x y h e = absurd (omega arith)
append-same_length (c ∷ p) [] x y h e = absurd (omega arith)
append-same_length (c ∷ p) (d ∷ q) x y h e = ground (arith, append-same_length p q x y)

starts_with_self : (s t : Text) → starts_with s (s ++ t) ≡ true
unfolding starts_with
starts_with_self [] t = refl
starts_with_self (c ∷ s) t = ground (arith, starts_with_self s t)

has_infix_self : (s t : Text) → s ≢ [] → has_infix s (s ++ t) ≡ true
unfolding has_infix
has_infix_self [] t h = absurd (h refl)
has_infix_self (c ∷ s) t h = ground (arith, starts_with_self (c ∷ s) t)

id-protected :
    (cluster_id other_id tail : Text)
    → cluster_id ≢ []
    → (get_or cluster_id 0 0 ≢ b'N') × (get_or cluster_id 0 0 ≢ b',')
    → is_protected (replace cluster_id other_id (b'N' ∷ b',' ∷ (cluster_id ++ tail))) ≡ true
unfolding replace_from starts_with
id-protected [] other_id tail ne h = absurd (ne refl)
id-protected (c ∷ cluster_id) other_id tail ne h = ground arith

-- In the row of a node the id is replaced by another one.
pub id_row :
    (cluster_id other_id tail : Text)
    → AreIds cluster_id other_id
    → IsRow (b'N' ∷ b',' ∷ (cluster_id ++ tail))
    → IsRow (replace cluster_id other_id (b'N' ∷ b',' ∷ (cluster_id ++ tail)))
      × (replace cluster_id other_id (b'N' ∷ b',' ∷ (cluster_id ++ tail))
          ≢ b'N' ∷ b',' ∷ (cluster_id ++ tail))
id_row cluster_id other_id tail ids r = (
  record {
    protected = id-protected cluster_id other_id tail ids.some_text ids.start;
    plain = replace_from-All IsPlain cluster_id other_id 0 _ ids.other_plain r.plain;
  },
  replace-changes cluster_id other_id ids.some_text
      (λ x y e. ids.different (append-same_length other_id cluster_id x y ids.same_length e))
      (b'N' ∷ b',' ∷ (cluster_id ++ tail))
      (has_infix-behind cluster_id (b'N' ∷ b',' ∷ []) (cluster_id ++ tail)
        (has_infix_self cluster_id tail ids.some_text)),
)
