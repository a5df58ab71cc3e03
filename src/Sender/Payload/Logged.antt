-- ===== src/Sender/Payload/Logged.antt =====
-- The cluster id of a payload of the emulator, in the receiver's file of ids.
use cluster_size_operator_fo.Prelude.{
  ℕ, ◌≡◌, ◌∙◌, ap, Bool, true, Option, List, ◌∷◌, ◌++◌, append_assoc, contains, list_eq, nat_eq,
  arith, some, All, ◌≤◌, ◌≢◌,
}
use cluster_size_operator_fo.Text.{Text, codes, join}
use cluster_size_operator_fo.Base64.{Bytes}
use cluster_size_operator_fo.Prelude.Int.{ℤ}
use cluster_size_operator_fo.Text.Split.{Lacks}
use cluster_size_operator_fo.Dates.Stamp.{TimeError, last_second}
use cluster_size_operator_fo.Dict.{Dict}
use cluster_size_operator_fo.Lifecycle.{◌>>=◌}
use cluster_size_operator_fo.Receiver.Decode.Lines.{InTime, process_lines_total}
use cluster_size_operator_fo.Receiver.Message.{
  Crypto, raw_lines, lookup_table, protected_lines, read_message, make_report,
}
use cluster_size_operator_fo.Receiver.ClusterIds.{CidFile, existing_ids, discovered_ids, log_ids}
use cluster_size_operator_fo.Receiver.ClusterIds.Found.{IsId, IsId-All, header-discovered_ids}
use cluster_size_operator_fo.Receiver.ClusterIds.Handler.{log_message}
use cluster_size_operator_fo.Receiver.ClusterIds.Union.{IsArrangement, IsEnded, log_ids-union}
use cluster_size_operator_fo.Sender.Payload.{
  payload_lines, full_payload_text, signed_text, signature,
}
use cluster_size_operator_fo.Sender.Payload.Lines.{IsPlain}
use cluster_size_operator_fo.Sender.Payload.Rows.{payload_lines-IsRow}
use cluster_size_operator_fo.Sender.Payload.Signed.{IsHexdigest, hexdigest-IsSolid}
use cluster_size_operator_fo.Sender.Payload.Timely.{payload_lines-InTime, signed_text-InTime}
use cluster_size_operator_fo.Sender.Payload.Verified.{payload_lines-ne-nil}

front :
    (id a b c d : Text) → (((id ++ b',' ∷ a) ++ b) ++ c) ++ d ≡ id ++ b',' ∷ (((a ++ b) ++ c) ++ d)
front id a b c d = simp append_assoc

header_first :
    (c : Crypto) (salt : Bytes) (cluster_id : Text) (total_nodes now_epoch : ℕ) (random : ℕ → ℕ)
    → (rest : Text) × (full_payload_text c salt
          (payload_lines cluster_id total_nodes now_epoch random)
        ≡ codes "H," ++ (cluster_id ++ b',' ∷ rest))
unfolding full_payload_text signed_text payload_lines join
header_first c salt cluster_id total_nodes now_epoch random =
    (_, ap (λ (t : Text). b'H' ∷ b',' ∷ t) (front cluster_id _ _ _ _))

id-plain : (cluster_id : Text) → IsId cluster_id → All IsPlain cluster_id
id-plain cluster_id = IsId-All IsPlain cluster_id (λ c h. ground arith) (omega arith, omega arith)

id-Lacks : (cluster_id : Text) → IsId cluster_id → Lacks b',' cluster_id
id-Lacks cluster_id = IsId-All (λ c. c ≢ b',') cluster_id (λ c h. ground arith) (omega arith)

module _ (late : ℕ → TimeError) (c : Crypto) (salt : Bytes) (cluster_id : Text)
    (total_nodes now_epoch : ℕ) (random : ℕ → ℕ) where
  abbrev sent_text : Text
  sent_text = full_payload_text c salt (payload_lines cluster_id total_nodes now_epoch random)

  sent_text-InTime :
      now_epoch ≤ last_second
      → ((m : Bytes) → IsHexdigest (c.hmac_hex salt m))
      → IsId cluster_id
      → All InTime (raw_lines sent_text)
  unfolding full_payload_text signature
  sent_text-InTime soon hexadecimal is =
      signed_text-InTime (payload_lines cluster_id total_nodes now_epoch random) _
        (payload_lines-ne-nil cluster_id total_nodes now_epoch random)
        (payload_lines-IsRow cluster_id total_nodes now_epoch random (id-plain cluster_id is))
        (hexdigest-IsSolid _ (hexadecimal _))
        (payload_lines-InTime cluster_id total_nodes now_epoch random (id-Lacks cluster_id is) soon)

  -- If the frames of a message join to a payload of the emulator, then after the message the cluster id is in the
  -- receiver's file of ids, in whatever order new ids are written. The last line of the file ends with a newline before,
  -- if there is a file, the cluster id has the form of a UUID, the moment is in no year after 9999, and the digest is
  -- hexadecimal.
  pub build_cluster_payload-logged :
      (arrange : List Text → List Text) (wide_word : ℕ → Bool) (frames : Dict ℤ Bytes)
      (total_frames : ℤ) (cid_file : Option CidFile)
      → read_message c frames total_frames
        ≡ some (full_payload_text c salt (payload_lines cluster_id total_nodes now_epoch random))
      → now_epoch ≤ last_second
      → ((m : Bytes) → IsHexdigest (c.hmac_hex salt m))
      → IsArrangement arrange
      → IsEnded cid_file
      → IsId cluster_id
      → contains
          (existing_ids (log_message arrange wide_word late c salt frames total_frames cid_file))
          cluster_id
        ≡ true
  unfolding log_message make_report
  build_cluster_payload-logged arrange wide_word frames total_frames cid_file joined soon
        hexadecimal arranged end is =
      let (out, runs, long) =
        process_lines_total late (lookup_table (protected_lines (raw_lines sent_text)))
          (raw_lines sent_text) (sent_text-InTime soon hexadecimal is) in
      let (rest, e) = header_first c salt cluster_id total_nodes now_epoch random in
      let named : contains (discovered_ids wide_word sent_text) cluster_id ≡ true =
        ap (λ t. contains (discovered_ids wide_word t) cluster_id) e
        ∙ header-discovered_ids wide_word cluster_id rest is in
      let held : contains (existing_ids (log_ids arrange wide_word sent_text cid_file)) cluster_id
          ≡ true =
        log_ids-union arrange wide_word arranged sent_text cid_file cluster_id end ∙ ground arith in
      rw (joined, ◌>>=◌, runs) held
