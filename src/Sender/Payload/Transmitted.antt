-- ===== src/Sender/Payload/Transmitted.antt =====
-- From a text that is compressed and sent to the report on it.
use cluster_size_operator_fo.Prelude.{
  ℕ, ◌≡◌, ◌≢◌, refl, ◌∙◌, ap, some, none, List, [], ◌∷◌, ◌++◌, length, All, nat_eq, list_eq,
}
use cluster_size_operator_fo.Prelude.Int.{ℤ, pos, int_eq}
use cluster_size_operator_fo.Text.{Text, codes}
use cluster_size_operator_fo.Text.Number.{show}
use cluster_size_operator_fo.Base64.{Bytes, utf8_encode}
use cluster_size_operator_fo.Base64.Ascii.{IsAscii, utf8_encode-IsAscii, utf8_decode-IsAscii}
use cluster_size_operator_fo.Dates.Stamp.{TimeError}
use cluster_size_operator_fo.Dict.{Dict, lookup}
use cluster_size_operator_fo.Lifecycle.{◌>>=◌}
use cluster_size_operator_fo.Receiver.Decode.Lines.{InTime}
use cluster_size_operator_fo.Receiver.Message.{
  Crypto, Report, join_frames, integrity, raw_lines, read_message, final_report,
  process_completed_message,
}
use cluster_size_operator_fo.Receiver.Message.Complete.{process_completed_message_complete}
use cluster_size_operator_fo.Receiver.Assembly.{Submission, Buffer, receive_all}
use cluster_size_operator_fo.Receiver.Assembly.Track.{mine, about}
use cluster_size_operator_fo.Sender.{total_frames, send_segmented_payload}
use cluster_size_operator_fo.Sender.Frames.{from}
use cluster_size_operator_fo.Sender.Delivery.{send_segmented_payload-received}

-- `gunzip` takes back what `gzip` does, and a compressed text has a header.
pub record IsCodec (c : Crypto) (gzip : Bytes → Bytes) : Type 0 where
  pub inverse : (s : Bytes) → c.gunzip (gzip s) ≡ some s
  pub not_empty : (s : Bytes) → gzip s ≢ []

pub read_message_text :
    (c : Crypto) (gzip : Bytes → Bytes) (text : Text) (frames : Dict ℤ Bytes) (n : ℕ)
    → IsCodec c gzip
    → IsAscii text
    → join_frames frames 1 n ≡ some (gzip (utf8_encode text))
    → read_message c frames (pos n) ≡ some text
unfolding read_message
read_message_text c gzip text frames n codec ascii joined =
    rw (joined, ◌>>=◌, codec.inverse (utf8_encode text), ◌>>=◌, utf8_encode-IsAscii text ascii)
      (utf8_decode-IsAscii text ascii)

-- The message `msg_id`, once: what the loop hands over of it is reported, with the status and the
-- number of lines that the text leads to.
pub record IsReported (late : ℕ → TimeError) (c : Crypto) (salt : Bytes) (text : Text)
    (submissions : List Submission) : Type 0 where
  pub s : Submission
  pub r : Report
  pub once : submissions ≡ s ∷ []
  pub written :
      process_completed_message late c salt s.msg_id s.source_ip s.frames s.total_frames
      ≡ some (final_report s.msg_id s.source_ip s.total_frames r ++ codes "\n\n")
  pub status : r.status ≡ integrity c salt (raw_lines text)
  pub long : length r.processed_lines ≡ length (raw_lines text)

reported :
    (late : ℕ → TimeError) (c : Crypto) (salt : Bytes) (text : Text) (submissions : List Submission)
    (s : Submission)
    → All InTime (raw_lines text)
    → submissions ≡ s ∷ []
    → read_message c s.frames s.total_frames ≡ some text
    → IsReported late c salt text submissions
reported late c salt text submissions s timely once reads =
    let (r, written, status, long) =
      process_completed_message_complete late c salt s.msg_id s.source_ip s.frames s.total_frames
        text timely reads in
    record { s = s; r = r; once = once; written = written; status = status; long = long }

sent_bytes :
    (late : ℕ → TimeError) (c : Crypto) (gzip : Bytes → Bytes) (salt text payload : Bytes)
    (msg_id : ℕ) (source_ip : Text) (arrivals : List (Text × Bytes)) (buffer : Buffer)
    → All InTime (raw_lines text)
    → IsCodec c gzip
    → IsAscii text
    → payload ≡ gzip (utf8_encode text)
    → payload ≢ []
    → lookup (show msg_id) buffer ≡ none
    → mine (show msg_id) arrivals
      ≡ mine (show msg_id) (from source_ip (send_segmented_payload msg_id payload))
    → IsReported late c salt text (about (show msg_id) (receive_all buffer arrivals).1)
sent_bytes late c gzip salt text [] msg_id source_ip arrivals buffer timely codec ascii e ne new
      same =
    absurd (ne refl)
sent_bytes late c gzip salt text (b ∷ bs) msg_id source_ip arrivals buffer timely codec ascii e ne
      new same =
    let (s, once, counted, joined) =
      send_segmented_payload-received msg_id b bs source_ip arrivals buffer new same in
    reported late c salt text _ s timely once (
      ap (λ n. read_message c s.frames n) counted
      ∙ read_message_text c gzip text s.frames (total_frames (b ∷ bs)) codec ascii
          (joined ∙ ap some e))

pub transmitted :
    (late : ℕ → TimeError) (c : Crypto) (gzip : Bytes → Bytes) (salt : Bytes) (text : Text)
    (msg_id : ℕ) (source_ip : Text) (arrivals : List (Text × Bytes)) (buffer : Buffer)
    → All InTime (raw_lines text)
    → IsCodec c gzip
    → IsAscii text
    → lookup (show msg_id) buffer ≡ none
    → mine (show msg_id) arrivals
      ≡ mine
          (show msg_id)
          (from source_ip (send_segmented_payload msg_id (gzip (utf8_encode text))))
    → IsReported late c salt text (about (show msg_id) (receive_all buffer arrivals).1)
transmitted late c gzip salt text msg_id source_ip arrivals buffer timely codec ascii new same =
    sent_bytes late c gzip salt text (gzip (utf8_encode text)) msg_id source_ip arrivals buffer
      timely codec ascii refl (codec.not_empty (utf8_encode text)) new same
