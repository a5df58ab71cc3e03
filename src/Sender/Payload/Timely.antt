-- ===== src/Sender/Payload/Timely.antt =====
-- The epochs of a payload of the emulator.
use cluster_size_operator_fo.Prelude.{
  ℕ, zero, suc, ◌-◌, ◌≤◌, ◌≡◌, ◌≢◌, refl, ◌∙◌, ap, true, false, Option, some, none, List, [], ◌∷◌,
  ◌++◌, arith, All, All-append, nat_eq,
}
use cluster_size_operator_fo.Prelude.Int.{ℤ, pos, negsuc, ◌-ℤ◌, ◌≤ℤ◌, int_laws}
use cluster_size_operator_fo.Text.{
  Text, codes, join, split, strip, rstrip, lstrip, is_space, starts_with,
}
use cluster_size_operator_fo.Text.Number.{
  is_digit, show, show_int, int_of, signed, read_digits, negative,
}
use cluster_size_operator_fo.Text.Printed.{All-show, int_of-show}
use cluster_size_operator_fo.Text.Split.{Lacks, split-join}
use cluster_size_operator_fo.Text.Strip.{keep_solid}
use cluster_size_operator_fo.Dates.Stamp.{last_second}
use cluster_size_operator_fo.Compliance.Ingest.{part}
use cluster_size_operator_fo.Receiver.Decode.Lines.{is_early, InTime}
use cluster_size_operator_fo.Receiver.Message.{raw_lines}
use cluster_size_operator_fo.Sender.Payload.{
  node_rows, header_row, lookup_row, lookup_str, worker_role, always, payload_lines, signed_text,
}
use cluster_size_operator_fo.Sender.Payload.Lines.{IsRow, IsSolid, t_line, raw_lines-signed_text}

digit-no_comma : (c : ℕ) → is_digit c ≡ true → c ≢ b','
unfolding is_digit
digit-no_comma c h = ground arith

show-Lacks : (n : ℕ) → Lacks b',' (show n)
show-Lacks n = All-show (λ c. c ≢ b',') n digit-no_comma

show_int-Lacks : (z : ℤ) → Lacks b',' (show_int z)
unfolding show_int
show_int-Lacks (pos n) = show-Lacks n
show_int-Lacks (negsuc n) = (omega arith, show-Lacks (suc n))

negative_early : (o : Option ℕ) → is_early (negative o) ≡ true
negative_early none = refl
negative_early (some zero) = refl
negative_early (some (suc n)) = refl

minus_strip : (s : Text) → strip (b'-' ∷ s) ≡ b'-' ∷ rstrip s
unfolding strip lstrip rstrip is_space nat_eq
minus_strip s = keep_solid b'-' (rstrip s) refl

minus_early : (s : Text) → is_early (int_of (b'-' ∷ s)) ≡ true
unfolding int_of nat_eq
minus_early s =
    ap (λ t. is_early (signed t)) (minus_strip s) ∙ negative_early (read_digits 0 false (rstrip s))

show-early : (n : ℕ) → n ≤ last_second → is_early (int_of (show n)) ≡ true
show-early n h = ap is_early (int_of-show n) ∙ ground arith

show_int-early : (z : ℤ) → z ≤ℤ pos last_second → is_early (int_of (show_int z)) ≡ true
unfolding show_int
show_int-early (pos n) h = show-early n (omega arith)
show_int-early (negsuc n) h = minus_early (show (suc n))

fields_early :
    (line : Text) (fields : List Text)
    → split b',' line ≡ fields
    → is_early (int_of (part fields 5)) ≡ true
    → is_early (int_of (part fields 7)) ≡ true
    → InTime line
fields_early line fields e h k =
    let p : is_early (int_of (part (split b',' line) 5)) ≡ true =
      ap (λ fs. is_early (int_of (part fs 5))) e ∙ h in
    let q : is_early (int_of (part (split b',' line) 7)) ≡ true =
      ap (λ fs. is_early (int_of (part fs 7))) e ∙ k in
    ground arith

codes_lack : Lacks b',' (codes "amd64")
codes_lack = omega arith

header_row-InTime :
    (cluster_id : Text) (total_nodes now_epoch age : ℕ)
    → Lacks b',' cluster_id
    → now_epoch ≤ last_second
    → InTime (header_row cluster_id total_nodes now_epoch age)
header_row-InTime cluster_id total_nodes now_epoch age h k =
    fields_early _ _
      (split-join b',' (codes "H")
        (cluster_id
          ∷ show total_nodes
          ∷ codes "1"
          ∷ codes "2"
          ∷ show_int (pos now_epoch -ℤ pos age)
          ∷ codes "0"
          ∷ show now_epoch
          ∷ codes "amd64"
          ∷ [])
        (omega arith, tt)
        (
          h,
          (
            show-Lacks total_nodes,
            (
              (omega arith, tt),
              (
                (omega arith, tt),
                (
                  show_int-Lacks (pos now_epoch -ℤ pos age),
                  ((omega arith, tt), (show-Lacks now_epoch, (codes_lack, tt))),
                ),
              ),
            ),
          ),
        ))
      (show_int-early (pos now_epoch -ℤ pos age) (omega int_laws)) (show-early now_epoch k)

node_rows-InTime :
    (cluster_id : Text) (role : ℕ → Text) (cpu : Text) (i count : ℕ)
    → All InTime (node_rows cluster_id role cpu i count)
unfolding starts_with join nat_eq
node_rows-InTime cluster_id role cpu i zero = tt
node_rows-InTime cluster_id role cpu i (suc count) =
    (refl, node_rows-InTime cluster_id role cpu (suc i) count)

lookup_row-InTime : InTime (lookup_row lookup_str)
unfolding starts_with nat_eq
lookup_row-InTime = refl

-- The emulator's rows have no epoch after the year 9999, if it is not later than that.
pub payload_lines-InTime :
    (cluster_id : Text) (total_nodes now_epoch : ℕ) (random : ℕ → ℕ)
    → Lacks b',' cluster_id
    → now_epoch ≤ last_second
    → All InTime (payload_lines cluster_id total_nodes now_epoch random)
unfolding payload_lines
payload_lines-InTime cluster_id total_nodes now_epoch random h k =
    let threes = node_rows cluster_id (always (codes "3")) (codes "40") 1 3 in
    let fours = node_rows cluster_id (always (codes "4")) (codes "40") 4 6 in
    let workers = node_rows cluster_id (worker_role random) (codes "50") 10 (total_nodes - 9) in
    let last_row = lookup_row lookup_str ∷ [] in
    (
      header_row-InTime cluster_id total_nodes now_epoch 1000000 h k,
      All-append InTime threes (fours ++ (workers ++ last_row))
          (node_rows-InTime cluster_id (always (codes "3")) (codes "40") 1 3)
          (All-append InTime fours (workers ++ last_row)
            (node_rows-InTime cluster_id (always (codes "4")) (codes "40") 4 6)
            (All-append InTime workers last_row
              (node_rows-InTime cluster_id (worker_role random) (codes "50") 10 (total_nodes - 9))
              (lookup_row-InTime, tt))),
    )

-- The signature of a text is no header.
pub signed_text-InTime :
    (lines : List Text) (mac : Text)
    → lines ≢ []
    → All IsRow lines
    → IsSolid mac
    → All InTime lines
    → All InTime (raw_lines (signed_text lines mac))
signed_text-InTime [] mac ne rows m timely = absurd (ne refl)
signed_text-InTime (line ∷ lines) mac ne rows m timely =
    rw (raw_lines-signed_text line lines mac rows m) (
      All-append InTime (line ∷ lines) (t_line mac ∷ []) timely
        (unfold starts_with nat_eq in refl, tt))
