-- ===== src/Receiver/Message/Complete.antt =====
-- What a message that can be read leaves in the log.
use cluster_size_operator_fo.Prelude.{ℕ, ◌≡◌, refl, some, ◌++◌, length, All}
use cluster_size_operator_fo.Prelude.Int.{ℤ}
use cluster_size_operator_fo.Text.{Text, codes}
use cluster_size_operator_fo.Base64.{Bytes}
use cluster_size_operator_fo.Dates.Stamp.{TimeError}
use cluster_size_operator_fo.Dict.{Dict}
use cluster_size_operator_fo.Lifecycle.{◌>>=◌}
use cluster_size_operator_fo.Receiver.Decode.Lines.{InTime, process_lines_total}
use cluster_size_operator_fo.Receiver.Message.{
  Crypto, Report, integrity, raw_lines, protected_lines, lookup_table, read_message, make_report,
  checked, final_report, process_completed_message,
}

-- If the frames join to a text that decompresses and decodes, and no header of it has an epoch after the
-- year 9999, the message is reported, whether or not it is verified: the report has the result of the check of the lines as they came, and a line
-- for each line of the message.
pub process_completed_message_complete :
    (late : ℕ → TimeError) (c : Crypto) (salt : Bytes) (msg_id source_ip : Text)
    (frames : Dict ℤ Bytes) (total_frames : ℤ) (raw_text : Text)
    → All InTime (raw_lines raw_text)
    → read_message c frames total_frames ≡ some raw_text
    → (r : Report) × (process_completed_message late c salt msg_id source_ip frames total_frames
        ≡ some (final_report msg_id source_ip total_frames r ++ codes "\n\n"))
      × (r.status ≡ integrity c salt (raw_lines raw_text))
      × (length r.processed_lines ≡ length (raw_lines raw_text))
unfolding process_completed_message make_report
process_completed_message_complete late c salt msg_id source_ip frames total_frames raw_text timely
      reads =
    let (out, runs, long) =
      process_lines_total late (lookup_table (protected_lines (raw_lines raw_text)))
        (raw_lines raw_text) timely in
    (checked c salt (raw_lines raw_text) out, rw (reads, ◌>>=◌, runs), refl, long)
