-- ===== src/Sender/Attack/Scenarios.antt =====
-- The 11 scenarios, one by one.
use cluster_size_operator_fo.Prelude.{
  ℕ, zero, suc, ◌-◌, ◌≤◌, ◌≡◌, ◌≢◌, refl, ap, true, [], ◌∷◌, arith, All, All-append, length,
  length-append, get_or, set, take, nat_eq, list_eq,
}
use cluster_size_operator_fo.Text.{Text, codes, join, starts_with, has_infix}
use cluster_size_operator_fo.Text.Number.{show, show_digits}
use cluster_size_operator_fo.Base64.{b64encode, utf8_encode, encode_char}
use cluster_size_operator_fo.Receiver.Message.{is_protected}
use cluster_size_operator_fo.Sender.Payload.{pad3, lookup_row}
use cluster_size_operator_fo.Sender.Payload.Lines.{IsPlain, IsRow}
use cluster_size_operator_fo.Sender.Payload.Rows.{
  header_row-IsRow, node_row-IsRow, lookup_row-IsRow, join-plain,
}
use cluster_size_operator_fo.Sender.Attack.{
  replace, pop, insert_at, change, node_count, attack_lookup_str, pristine_lines, corrupt_end,
  mutate,
}
use cluster_size_operator_fo.Sender.Attack.Replace.{take-All, pop-All, insert_at-All}
use cluster_size_operator_fo.Sender.Attack.Changed.{
  AreIds, IsChanged, pristine_lines-IsRow, set_row, replaced_part, removed_row,
}
use cluster_size_operator_fo.Sender.Attack.Ids.{id_row}

-- The row of the lookup has 114 characters, and its last one is no `A`.
lookup_end :
    (get_or (lookup_row attack_lookup_str) 113 0 ≡ b'x')
    × (get_or (corrupt_end (lookup_row attack_lookup_str)) 113 0 ≡ b'A')
unfolding b64encode utf8_encode encode_char
lookup_end = (refl, refl)

corrupt_end-protected : is_protected (corrupt_end (lookup_row attack_lookup_str)) ≡ true
unfolding b64encode utf8_encode encode_char starts_with nat_eq
corrupt_end-protected = refl

corrupt_end-plain : (line : Text) → All IsPlain line → All IsPlain (corrupt_end line)
corrupt_end-plain line h =
    All-append IsPlain (take (length line - 4) line) (codes "AAAA")
      (take-All IsPlain (length line - 4) line h) (omega arith)

lookup_plain : All IsPlain (lookup_row attack_lookup_str)
lookup_plain =
    let r : IsRow (lookup_row attack_lookup_str) =
      lookup_row-IsRow attack_lookup_str (omega arith) in
    r.plain

corrupt_end-IsRow : IsRow (corrupt_end (lookup_row attack_lookup_str))
corrupt_end-IsRow = record {
  protected = corrupt_end-protected;
  plain = corrupt_end-plain (lookup_row attack_lookup_str) lookup_plain;
}

corrupt_end-changes : corrupt_end (lookup_row attack_lookup_str) ≢ lookup_row attack_lookup_str
corrupt_end-changes e =
    omega (arith, ap (λ (t : Text). get_or t 113 0) e, lookup_end.0, lookup_end.1)

module _ (cluster_id other_id : Text) (now_epoch : ℕ) (ids : AreIds cluster_id other_id) where
  rows : All IsRow (pristine_lines cluster_id now_epoch)
  rows = pristine_lines-IsRow cluster_id now_epoch ids.plain

  -- A row of a node with any text behind the id.
  free_row : (t : Text) → All IsPlain t → IsRow (join b',' (codes "N" ∷ cluster_id ∷ t ∷ []))
  unfolding join starts_with nat_eq
  free_row t h = record {
    protected = refl;
    plain = join-plain (codes "N" ∷ cluster_id ∷ t ∷ []) (omega arith, (ids.plain, (h, tt)));
  }

  scenario_1 : IsChanged cluster_id now_epoch (pop 15 (pristine_lines cluster_id now_epoch))
  unfolding pristine_lines
  scenario_1 =
      removed_row cluster_id now_epoch ids.plain (pop 15 (pristine_lines cluster_id now_epoch))
        (pop-All IsRow 15 (pristine_lines cluster_id now_epoch) rows) (omega arith) (omega arith)

  scenario_2 : IsChanged cluster_id now_epoch (
      insert_at 5
        (join b',' (codes "N" ∷ cluster_id ∷ codes "999,5,50,true" ∷ []))
        (pristine_lines cluster_id now_epoch))
  unfolding pristine_lines
  scenario_2 =
      removed_row cluster_id now_epoch ids.plain _
        (insert_at-All IsRow 5 _ (pristine_lines cluster_id now_epoch)
          (free_row (codes "999,5,50,true") (omega arith)) rows)
        (omega arith) (omega arith)

  scenario_3 :
      IsChanged cluster_id now_epoch
        (change 1 (replace (codes ",40,") (codes ",2,")) (pristine_lines cluster_id now_epoch))
  unfolding pristine_lines join pad3 show show_digits has_infix starts_with nat_eq
  scenario_3 =
      replaced_part cluster_id now_epoch ids.plain 1 (codes "40,") (codes "2,") b'N'
        (codes ",001,3,40,true") (omega arith) (omega arith) (omega arith) refl
        (node_row-IsRow cluster_id 1 (codes "3") (codes "40") ids.plain (omega arith) (omega arith))
        refl (λ x y e. omega (arith, ap (λ (t : Text). get_or t 0 0) e))

  scenario_4 :
      IsChanged cluster_id now_epoch
        (change 11 (replace (codes ",true") (codes ",false")) (pristine_lines cluster_id now_epoch))
  unfolding pristine_lines join pad3 show show_digits has_infix starts_with nat_eq
  scenario_4 =
      replaced_part cluster_id now_epoch ids.plain 11 (codes "true") (codes "false") b'N'
        (codes ",011,5,50,true") (omega arith) (omega arith) (omega arith) refl
        (node_row-IsRow cluster_id 11 (codes "5") (codes "50") ids.plain (omega arith)
          (omega arith))
        refl (λ x y e. omega (arith, ap (λ (t : Text). get_or t 0 0) e))

  scenario_5 :
      IsChanged cluster_id now_epoch
        (change 2 (replace (codes ",3,40,") (codes ",5,40,")) (pristine_lines cluster_id now_epoch))
  unfolding pristine_lines join pad3 show show_digits has_infix starts_with nat_eq
  scenario_5 =
      replaced_part cluster_id now_epoch ids.plain 2 (codes "3,40,") (codes "5,40,") b'N'
        (codes ",002,3,40,true") (omega arith) (omega arith) (omega arith) refl
        (node_row-IsRow cluster_id 2 (codes "3") (codes "40") ids.plain (omega arith) (omega arith))
        refl (λ x y e. omega (arith, ap (λ (t : Text). get_or t 0 0) e))

  scenario_6 :
      IsChanged cluster_id now_epoch (change 41 corrupt_end (pristine_lines cluster_id now_epoch))
  unfolding pristine_lines
  scenario_6 =
      set_row cluster_id now_epoch ids.plain 41 (corrupt_end (lookup_row attack_lookup_str))
        (omega arith) corrupt_end-IsRow corrupt_end-changes

  scenario_7 : IsChanged cluster_id now_epoch (pop 41 (pristine_lines cluster_id now_epoch))
  unfolding pristine_lines
  scenario_7 =
      removed_row cluster_id now_epoch ids.plain (pop 41 (pristine_lines cluster_id now_epoch))
        (pop-All IsRow 41 (pristine_lines cluster_id now_epoch) rows) (omega arith) (omega arith)

  scenario_8 :
      IsChanged cluster_id now_epoch
        (change 8 (replace cluster_id other_id) (pristine_lines cluster_id now_epoch))
  unfolding pristine_lines join pad3 show show_digits
  scenario_8 =
      let (r, d) = id_row cluster_id other_id (codes ",008,4,40,true") ids (
        node_row-IsRow cluster_id 8 (codes "4") (codes "40") ids.plain (omega arith)
          (omega arith)) in
      set_row cluster_id now_epoch ids.plain 8 _ (omega arith) r d

  scenario_9 : IsChanged cluster_id now_epoch (
      set
        (pristine_lines cluster_id now_epoch)
        12
        (join b',' (codes "N" ∷ cluster_id ∷ codes ",5,50,true" ∷ [])))
  unfolding pristine_lines join pad3 show show_digits
  scenario_9 =
      set_row cluster_id now_epoch ids.plain 12 _ (omega arith)
        (free_row (codes ",5,50,true") (omega arith))
        (λ e. omega (
          arith,
          ap (λ (t : Text). length t) e,
          length-append cluster_id (codes ",,5,50,true"),
          length-append cluster_id (codes ",012,5,50,true"),
        ))

  scenario_10 : IsChanged cluster_id now_epoch (take 5 (pristine_lines cluster_id now_epoch))
  unfolding pristine_lines
  scenario_10 =
      removed_row cluster_id now_epoch ids.plain (take 5 (pristine_lines cluster_id now_epoch))
        (take-All IsRow 5 (pristine_lines cluster_id now_epoch) rows) (omega arith) (omega arith)

  scenario_11 : IsChanged cluster_id now_epoch (
      change 0
        (replace (codes ",40,") (codes ",CORRUPTED_COUNT,"))
        (pristine_lines cluster_id now_epoch))
  unfolding pristine_lines join show show_digits has_infix starts_with nat_eq
  scenario_11 =
      replaced_part cluster_id now_epoch ids.plain 0 (codes "40,") (codes "CORRUPTED_COUNT,") b'H' _
        (omega arith) (omega arith) (omega arith) refl
        (header_row-IsRow cluster_id node_count now_epoch 100000 ids.plain) refl
        (λ x y e. omega (arith, ap (λ (t : Text). get_or t 0 0) e))

  pub mutate-IsChanged :
      (scenario_idx : ℕ)
      → 1 ≤ scenario_idx
      → scenario_idx ≤ 11
      → IsChanged cluster_id now_epoch
          (mutate scenario_idx cluster_id other_id (pristine_lines cluster_id now_epoch))
  unfolding mutate nat_eq pristine_lines
  mutate-IsChanged zero low high = absurd (omega (arith, low))
  mutate-IsChanged (suc zero) low high = scenario_1
  mutate-IsChanged (suc (suc zero)) low high = scenario_2
  mutate-IsChanged (suc (suc (suc zero))) low high = scenario_3
  mutate-IsChanged (suc (suc (suc (suc zero)))) low high = scenario_4
  mutate-IsChanged (suc (suc (suc (suc (suc zero))))) low high = scenario_5
  mutate-IsChanged (suc (suc (suc (suc (suc (suc zero)))))) low high = scenario_6
  mutate-IsChanged (suc (suc (suc (suc (suc (suc (suc zero))))))) low high = scenario_7
  mutate-IsChanged (suc (suc (suc (suc (suc (suc (suc (suc zero)))))))) low high = scenario_8
  mutate-IsChanged (suc (suc (suc (suc (suc (suc (suc (suc (suc zero))))))))) low high = scenario_9
  mutate-IsChanged (suc (suc (suc (suc (suc (suc (suc (suc (suc (suc zero)))))))))) low high =
      scenario_10
  mutate-IsChanged (suc (suc (suc (suc (suc (suc (suc (suc (suc (suc (suc zero))))))))))) low high =
      scenario_11
  mutate-IsChanged (suc (suc (suc (suc (suc (suc (suc (suc (suc (suc (suc (suc n)))))))))))) low
        high =
      absurd (omega (arith, high))
