-- ===== src/Sender/Attack/Detected.antt =====
-- How the receiver judges a payload of the attack simulator.
use cluster_size_operator_fo.Prelude.{
  ℕ, ◌≤◌, ◌≡◌, ◌≢◌, refl, ◌∙◌, none, List, [], ◌∷◌, All, nat_eq, list_eq, ◌==◌, arith,
  if◌then◌else◌,
}
use cluster_size_operator_fo.Text.{Text}
use cluster_size_operator_fo.Text.Number.{show}
use cluster_size_operator_fo.Base64.{Bytes}
use cluster_size_operator_fo.Base64.Ascii.{IsAscii}
use cluster_size_operator_fo.Dates.Stamp.{TimeError}
use cluster_size_operator_fo.Dict.{lookup}
use cluster_size_operator_fo.Receiver.Message.{
  Crypto, verified, tampered, integrity, raw_lines, calculated_mac, hash_input,
}
use cluster_size_operator_fo.Receiver.Assembly.{Buffer, receive_all}
use cluster_size_operator_fo.Receiver.Assembly.Track.{mine, about}
use cluster_size_operator_fo.Sender.{send_segmented_payload}
use cluster_size_operator_fo.Sender.Frames.{from}
use cluster_size_operator_fo.Sender.Payload.{signed_text, signature}
use cluster_size_operator_fo.Sender.Payload.Lines.{IsRow, IsSolid}
use cluster_size_operator_fo.Sender.Payload.Signed.{
  IsHexdigest, hexdigest-IsSolid, integrity-signed_text, signed_text-IsAscii, hash_input-inj,
}
use cluster_size_operator_fo.Receiver.Decode.Lines.{InTime}
use cluster_size_operator_fo.Sender.Payload.Timely.{signed_text-InTime}
use cluster_size_operator_fo.Sender.Payload.Transmitted.{IsCodec, IsReported, transmitted}
use cluster_size_operator_fo.Sender.Attack.{
  pristine_lines, mutate, corrupted_payload_text, build_corrupted_payload,
}
use cluster_size_operator_fo.Sender.Attack.Changed.{AreIds, IsChanged, pristine_lines-IsRow}
use cluster_size_operator_fo.Sender.Attack.Scenarios.{mutate-IsChanged}

-- The digests of the rows that were signed and of other rows are different, unless the rows are the same.
abbrev pub NoCollision : Crypto → Bytes → List Text → List Text → Type 0
NoCollision c salt signed sent =
    calculated_mac c salt sent ≡ calculated_mac c salt signed → hash_input sent ≡ hash_input signed

signature-calculated_mac :
    (c : Crypto) (salt : Bytes) (lines : List Text)
    → signature c salt lines ≡ calculated_mac c salt lines
unfolding signature calculated_mac
signature-calculated_mac c salt lines = refl

other_mac :
    (mac1 mac2 : Text) → mac1 ≢ mac2 → (if mac1 == mac2 then verified else tampered) ≡ tampered
other_mac mac1 mac2 h = ground arith

changed_status :
    (c : Crypto) (salt : Bytes) (signed sent : List Text)
    → All IsRow signed
    → All IsRow sent
    → sent ≢ []
    → sent ≢ signed
    → IsHexdigest (signature c salt signed)
    → NoCollision c salt signed sent
    → (integrity c salt (raw_lines (signed_text sent (signature c salt signed))) ≡ tampered)
      × IsAscii (signed_text sent (signature c salt signed))
changed_status c salt signed [] rows_signed rows ne changed h apart = absurd (ne refl)
changed_status c salt signed (line ∷ lines) rows_signed rows ne changed h apart =
    let m : IsSolid (signature c salt signed) = hexdigest-IsSolid _ h in
    (
      integrity-signed_text c salt line lines (signature c salt signed) rows m
          ∙ other_mac (calculated_mac c salt (line ∷ lines)) (signature c salt signed) (λ e.
            changed (
              hash_input-inj (line ∷ lines) signed rows rows_signed
                (apart (e ∙ signature-calculated_mac c salt signed)))),
      signed_text-IsAscii (line ∷ lines) (signature c salt signed) rows m,
    )

-- If the frames of a payload of one of the scenarios 1 to 11 of the attack simulator arrive in the order they were
-- sent, with any datagrams of other messages in between, and nothing is kept for the message id, then the message is
-- handed over once, and it is not dropped but reported as `TAMPERED`, in the text that goes to the log: each scenario
-- changes the rows that were signed. The digests of the changed and of the signed rows do not collide, the changed rows
-- have no epoch after the year 9999, the ids are as `uuid4` makes them, the digest is hexadecimal, and `gunzip` takes
-- back what `gzip` does.
pub build_corrupted_payload-tampered :
    (late : ℕ → TimeError) (c : Crypto) (gzip : Bytes → Bytes) (salt : Bytes)
    (cluster_id other_id : Text) (scenario_idx now_epoch msg_id : ℕ) (source_ip : Text)
    (arrivals : List (Text × Bytes)) (buffer : Buffer)
    → 1 ≤ scenario_idx
    → scenario_idx ≤ 11
    → All InTime (mutate scenario_idx cluster_id other_id (pristine_lines cluster_id now_epoch))
    → IsCodec c gzip
    → ((m : Bytes) → IsHexdigest (c.hmac_hex salt m))
    → AreIds cluster_id other_id
    → NoCollision c salt
        (pristine_lines cluster_id now_epoch)
        (mutate scenario_idx cluster_id other_id (pristine_lines cluster_id now_epoch))
    → lookup (show msg_id) buffer ≡ none
    → mine (show msg_id) arrivals
      ≡ mine (show msg_id) (
          from source_ip (
            send_segmented_payload msg_id
              (build_corrupted_payload c gzip cluster_id other_id scenario_idx salt now_epoch)))
    → (x : IsReported late c salt
        (corrupted_payload_text c cluster_id other_id scenario_idx salt now_epoch)
        (about (show msg_id) (receive_all buffer arrivals).1))
      × (x.r.status ≡ tampered)
unfolding build_corrupted_payload corrupted_payload_text
build_corrupted_payload-tampered late c gzip salt cluster_id other_id scenario_idx now_epoch msg_id
      source_ip arrivals buffer low high timely codec hexadecimal ids apart new same =
    let signed : List Text = pristine_lines cluster_id now_epoch in
    let text : Text =
      signed_text (mutate scenario_idx cluster_id other_id signed) (signature c salt signed) in
    let change : IsChanged cluster_id now_epoch (mutate scenario_idx cluster_id other_id signed) =
      mutate-IsChanged cluster_id other_id now_epoch ids scenario_idx low high in
    let (bad, ascii) =
      changed_status c salt signed (mutate scenario_idx cluster_id other_id signed)
        (pristine_lines-IsRow cluster_id now_epoch ids.plain) change.rows change.some_row
        change.differs (unfold signature in hexadecimal _) apart in
    let x : IsReported late c salt text (about (show msg_id) (receive_all buffer arrivals).1) =
      transmitted late c gzip salt text msg_id source_ip arrivals buffer
        (signed_text-InTime (mutate scenario_idx cluster_id other_id signed)
          (signature c salt signed) change.some_row change.rows
          (hexdigest-IsSolid _ (unfold signature in hexadecimal _)) timely)
        codec ascii new same in
    (x, x.status ∙ bad)
