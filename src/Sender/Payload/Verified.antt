-- ===== src/Sender/Payload/Verified.antt =====
-- How the receiver judges a payload of the emulator.
use cluster_size_operator_fo.Prelude.{
  ℕ, ◌≡◌, refl, ◌≢◌, ◌∙◌, none, List, [], ◌∷◌, ◌+◌, ◌≤◌, All, length, nat_eq, list_eq, ◌==◌, arith,
  if◌then◌else◌,
}
use cluster_size_operator_fo.Text.{Text}
use cluster_size_operator_fo.Text.Number.{show}
use cluster_size_operator_fo.Base64.{Bytes}
use cluster_size_operator_fo.Base64.Ascii.{IsAscii}
use cluster_size_operator_fo.Dates.Stamp.{TimeError, last_second}
use cluster_size_operator_fo.Dict.{lookup}
use cluster_size_operator_fo.Receiver.Message.{
  Crypto, verified, tampered, integrity, raw_lines, calculated_mac,
}
use cluster_size_operator_fo.Receiver.Assembly.{Buffer, receive_all}
use cluster_size_operator_fo.Receiver.Assembly.Track.{mine, about}
use cluster_size_operator_fo.Sender.{send_segmented_payload}
use cluster_size_operator_fo.Sender.Frames.{from}
use cluster_size_operator_fo.Sender.Payload.{
  payload_lines, signature, full_payload_text, build_cluster_payload,
}
use cluster_size_operator_fo.Sender.Payload.Lines.{IsPlain, IsRow, IsSolid}
use cluster_size_operator_fo.Sender.Payload.Rows.{payload_lines-IsRow}
use cluster_size_operator_fo.Sender.Payload.Signed.{
  IsHexdigest, hexdigest-IsSolid, integrity-signed_text, length-signed_text, signed_text-IsAscii,
}
use cluster_size_operator_fo.Text.Split.{Lacks}
use cluster_size_operator_fo.Receiver.Decode.Lines.{InTime}
use cluster_size_operator_fo.Sender.Payload.Timely.{payload_lines-InTime, signed_text-InTime}
use cluster_size_operator_fo.Sender.Payload.Transmitted.{IsCodec, IsReported, transmitted}

verified_rows :
    (c : Crypto) (salt : Bytes) (lines : List Text)
    → (if calculated_mac c salt lines == signature c salt lines then verified else tampered)
      ≡ verified
unfolding calculated_mac signature
verified_rows c salt lines = ground arith

-- The text of a payload has at least its first row.
pub signed_status :
    (c : Crypto) (salt : Bytes) (lines : List Text)
    → lines ≢ []
    → All IsRow lines
    → IsHexdigest (signature c salt lines)
    → (integrity c salt (raw_lines (full_payload_text c salt lines)) ≡ verified)
      × (length (raw_lines (full_payload_text c salt lines)) ≡ length lines + 1)
      × IsAscii (full_payload_text c salt lines)
unfolding full_payload_text
signed_status c salt [] ne rows h = absurd (ne refl)
signed_status c salt (line ∷ lines) ne rows h =
    let m : IsSolid (signature c salt (line ∷ lines)) = hexdigest-IsSolid _ h in
    (
      integrity-signed_text c salt line lines (signature c salt (line ∷ lines)) rows m
          ∙ verified_rows c salt (line ∷ lines),
      length-signed_text line lines (signature c salt (line ∷ lines)) rows m,
      signed_text-IsAscii (line ∷ lines) (signature c salt (line ∷ lines)) rows m,
    )

pub payload_lines-ne-nil :
    (cluster_id : Text) (total_nodes now_epoch : ℕ) (random : ℕ → ℕ)
    → payload_lines cluster_id total_nodes now_epoch random ≢ []
unfolding payload_lines
payload_lines-ne-nil cluster_id total_nodes now_epoch random h = cc

-- If the frames of a payload of the emulator arrive in the order they were sent, with any datagrams of other messages in
-- between, and nothing is kept for the message id, then the message is handed over once and reported as `VERIFIED`, with
-- a line for each row of the payload and for its signature. The cluster id has plain characters and no comma, the
-- moment is in no year after 9999, the digest is hexadecimal, and `gunzip` takes back what `gzip` does.
pub build_cluster_payload-verified :
    (late : ℕ → TimeError) (c : Crypto) (gzip : Bytes → Bytes) (salt : Bytes) (cluster_id : Text)
    (total_nodes now_epoch : ℕ) (random : ℕ → ℕ) (msg_id : ℕ) (source_ip : Text)
    (arrivals : List (Text × Bytes)) (buffer : Buffer)
    → now_epoch ≤ last_second
    → IsCodec c gzip
    → ((m : Bytes) → IsHexdigest (c.hmac_hex salt m))
    → All IsPlain cluster_id
    → Lacks b',' cluster_id
    → lookup (show msg_id) buffer ≡ none
    → mine (show msg_id) arrivals
      ≡ mine (show msg_id) (
          from source_ip (
            send_segmented_payload msg_id
              (build_cluster_payload c gzip cluster_id total_nodes salt now_epoch random)))
    → (x : IsReported late c salt
        (full_payload_text c salt (payload_lines cluster_id total_nodes now_epoch random))
        (about (show msg_id) (receive_all buffer arrivals).1))
      × (x.r.status ≡ verified)
      × (length x.r.processed_lines
          ≡ length (payload_lines cluster_id total_nodes now_epoch random) + 1)
unfolding build_cluster_payload
build_cluster_payload-verified late c gzip salt cluster_id total_nodes now_epoch random msg_id
      source_ip arrivals buffer soon codec hexadecimal plain no_comma new same =
    let lines : List Text = payload_lines cluster_id total_nodes now_epoch random in
    let (ok, long, ascii) =
      signed_status c salt lines (payload_lines-ne-nil cluster_id total_nodes now_epoch random)
        (payload_lines-IsRow cluster_id total_nodes now_epoch random plain)
        (unfold signature in hexadecimal _) in
    let timely : All InTime (raw_lines (full_payload_text c salt lines)) =
      unfold full_payload_text in
      signed_text-InTime lines (signature c salt lines)
        (payload_lines-ne-nil cluster_id total_nodes now_epoch random)
        (payload_lines-IsRow cluster_id total_nodes now_epoch random plain)
        (hexdigest-IsSolid _ (unfold signature in hexadecimal _))
        (payload_lines-InTime cluster_id total_nodes now_epoch random no_comma soon) in
    let x : IsReported late c salt (full_payload_text c salt lines)
        (about (show msg_id) (receive_all buffer arrivals).1) =
      transmitted late c gzip salt (full_payload_text c salt lines) msg_id source_ip arrivals buffer
        timely codec ascii new same in
    (x, x.status ∙ ok, x.long ∙ long)
