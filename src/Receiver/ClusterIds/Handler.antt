-- ===== src/Receiver/ClusterIds/Handler.antt =====
-- `process_completed_message` from the frames to the file of ids.
use cluster_size_operator_fo.Prelude.{ℕ, Bool, Option, none, some, List}
use cluster_size_operator_fo.Prelude.Int.{ℤ}
use cluster_size_operator_fo.Text.{Text}
use cluster_size_operator_fo.Base64.{Bytes}
use cluster_size_operator_fo.Dates.Stamp.{TimeError}
use cluster_size_operator_fo.Dict.{Dict}
use cluster_size_operator_fo.Lifecycle.{◌>>=◌}
use cluster_size_operator_fo.Receiver.Message.{Crypto, read_message, make_report}
use cluster_size_operator_fo.Receiver.ClusterIds.{CidFile, log_ids}

-- The text in which ids are looked for; `none` is an exception before that.
abbrev reported_text : (ℕ → TimeError) → Crypto → Bytes → Dict ℤ Bytes → ℤ → Option Text
reported_text late c salt frames total_frames = do
  raw_text ← read_message c frames total_frames
  r ← make_report late c salt raw_text
  some raw_text

abbrev logged : (List Text → List Text) → (ℕ → Bool) → Option CidFile → Option Text → Option CidFile
logged arrange wide_word cid_file none = cid_file
logged arrange wide_word cid_file (some raw_text) = log_ids arrange wide_word raw_text cid_file

-- The file of ids behind a message. An exception leaves it as it is.
unfoldable pub log_message :
    (List Text → List Text)
    → (ℕ → Bool)
    → (ℕ → TimeError)
    → Crypto
    → Bytes
    → Dict ℤ Bytes
    → ℤ
    → Option CidFile
    → Option CidFile
log_message arrange wide_word late c salt frames total_frames cid_file =
    logged arrange wide_word cid_file (reported_text late c salt frames total_frames)
