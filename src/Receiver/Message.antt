-- ===== src/Receiver/Message.antt =====
-- `process_completed_message`: the check of a message against its signature, and the report on it.
-- Gzip and HMAC-SHA256 are operations of `Crypto`. The file of cluster ids that the function also keeps
-- is in ClusterIds beside this module.
pub mod Signature
pub mod Complete
use cluster_size_operator_fo.Prelude.{
  ℕ, zero, suc, ◌+◌, ◌-◌, ◌*◌, ◌/◌, ◌%◌, Bool, true, false, ◌||◌, Option, none, some, List, [], ◌∷◌,
  ◌++◌, ltb, ◌==◌, list_eq, nat_eq, if◌then◌else◌,
}
use cluster_size_operator_fo.Prelude.Int.{ℤ, pos, negsuc, int_eq}
use cluster_size_operator_fo.Text.{Text, codes, strip, split, split_once, join, starts_with}
use cluster_size_operator_fo.Text.Number.{show, show_int}
use cluster_size_operator_fo.Base64.{Bytes, utf8_decode, utf8_encode}
use cluster_size_operator_fo.Dates.Stamp.{TimeError}
use cluster_size_operator_fo.Dict.{Dict, lookup}
use cluster_size_operator_fo.Lifecycle.{◌>>=◌}
use cluster_size_operator_fo.Receiver.Decode.{extract_lookup_table, process_lines}

-- `gunzip` is `gzip.GzipFile(…).read()`, with `none` for its exceptions; `hmac_hex` is the hexadecimal
-- digest of HMAC-SHA256, of a key and a message.
pub record Crypto : Type 0 where
  pub gunzip : Bytes → Option Bytes
  pub hmac_hex : Bytes → Bytes → Text

-- `b"".join(frames[i] for i in range(first, first + count))`; `none` is the `KeyError`.
unfoldable pub join_frames : Dict ℤ Bytes → ℕ → ℕ → Option Bytes
join_frames frames first zero = some []
join_frames frames first (suc count) = do
  f ← lookup (pos first) frames
  rest ← join_frames frames (suc first) count
  some (f ++ rest)

abbrev frame_count : ℤ → ℕ
frame_count (pos n) = n
frame_count (negsuc n) = 0

abbrev pub is_t : Text → Bool
is_t = starts_with (codes "T,")

abbrev pub is_protected : Text → Bool
is_protected line =
    starts_with (codes "H,") line || starts_with (codes "N,") line || starts_with (codes "R,") line

-- The last `T` line.
unfoldable pub find_t : List Text → Option Text → Option Text
find_t [] found = found
find_t (line ∷ lines) found = find_t lines (if is_t line then some line else found)

-- The lines that the signature covers.
unfoldable pub protected_lines : List Text → List Text
protected_lines [] = []
protected_lines (line ∷ lines) =
    let rest = protected_lines lines in
    if is_t line then rest else if is_protected line then line ∷ rest else rest

-- `integrity_status`. The `VALIDATION ERROR` is left out: nothing in its `try` raises an exception,
-- as a `T` line has a comma and a decoded text can be encoded.
pub data Integrity : Type 0 where
  verified missing_signature tampered : Integrity

abbrev pub hash_input : List Text → Text
hash_input lines = join b'\n' lines ++ b'\n' ∷ []

abbrev behind_tag : Option (Text × Text) → Text
behind_tag none = []
behind_tag (some (tag, mac)) = strip mac

unfoldable pub expected_mac : Text → Text
expected_mac t_line = behind_tag (split_once b',' t_line)

unfoldable pub calculated_mac : Crypto → Bytes → List Text → Text
calculated_mac c salt lines = c.hmac_hex salt (utf8_encode (hash_input lines))

abbrev compare_mac : Crypto → Bytes → List Text → Option Text → Integrity
compare_mac c salt lines none = missing_signature
compare_mac c salt lines (some t_line) =
    if calculated_mac c salt lines == expected_mac t_line then verified else tampered

unfoldable pub integrity : Crypto → Bytes → List Text → Integrity
integrity c salt raw_lines = compare_mac c salt (protected_lines raw_lines) (find_t raw_lines none)

-- The lookup table of the first `R` line.
unfoldable pub lookup_table : List Text → Dict Text Text
lookup_table [] = []
lookup_table (line ∷ lines) =
    let rest = lookup_table lines in
    if starts_with (codes "R,") line then extract_lookup_table line else rest

-- The lines of a message.
abbrev pub raw_lines : Text → List Text
raw_lines raw_text = split b'\n' (strip raw_text)

-- What the check and the decoding of a message find.
pub record Report : Type 0 where
  pub status : Integrity
  pub expected : Text
  pub calculated : Text
  pub processed_lines : List Text

abbrev expected_of : Option Text → Text
expected_of none = []
expected_of (some t_line) = expected_mac t_line

abbrev calculated_of : Crypto → Bytes → List Text → Option Text → Text
calculated_of c salt lines none = []
calculated_of c salt lines (some t_line) = calculated_mac c salt lines

unfoldable pub read_message : Crypto → Dict ℤ Bytes → ℤ → Option Text
read_message c frames total_frames = do
  payload ← join_frames frames 1 (frame_count total_frames)
  plain ← c.gunzip payload
  utf8_decode plain

abbrev pub checked : Crypto → Bytes → List Text → List Text → Report
checked c salt lines processed = record {
  status = integrity c salt lines;
  expected = expected_of (find_t lines none);
  calculated = calculated_of c salt (protected_lines lines) (find_t lines none);
  processed_lines = processed;
}

-- `none` is an exception, after which nothing is written.
unfoldable pub make_report : (ℕ → TimeError) → Crypto → Bytes → Text → Option Report
make_report late c salt raw_text = do
  processed ←
      process_lines late (lookup_table (protected_lines (raw_lines raw_text))) (raw_lines raw_text)
  some (checked c salt (raw_lines raw_text) processed)

abbrev status_text : Integrity → Text
status_text verified = codes "VERIFIED"
status_text missing_signature = codes "FAILED - MISSING SIGNATURE"
status_text tampered = codes "FAILED - TAMPERED/CORRUPTED"

abbrev message_label : Text → Text → ℤ → Text
message_label msg_id source_ip total_frames =
    msg_id ++ codes " from " ++ source_ip ++ codes " (" ++ show_int total_frames ++ codes " frames)"

-- The characters of the sign, U+26A0 and U+FE0F.
abbrev warning_sign : Text
warning_sign = 0x26a0 ∷ 0xfe0f ∷ []

abbrev failure_header : Text → Report → Text
failure_header label r =
    codes "# ["
    ++ warning_sign
    ++ codes " CRITICAL INTEGRITY FAILURE] MSG "
    ++ label
    ++ codes " - STATUS: "
    ++ status_text r.status
    ++ codes "\n# [DEBUG] Expected HMAC: "
    ++ r.expected
    ++ codes "\n# [DEBUG] Calculated HMAC: "
    ++ r.calculated

abbrev header_of : Integrity → Text → Report → Text
header_of verified label r = codes "# [AUDIT] MSG " ++ label ++ codes " [INTEGRITY: OK]"
header_of missing_signature label r = failure_header label r
header_of tampered label r = failure_header label r

unfoldable pub audit_header : Text → Text → ℤ → Report → Text
audit_header msg_id source_ip total_frames r =
    header_of r.status (message_label msg_id source_ip total_frames) r

unfoldable pub final_report : Text → Text → ℤ → Report → Text
final_report msg_id source_ip total_frames r =
    audit_header msg_id source_ip total_frames r ++ b'\n' ∷ join b'\n' r.processed_lines

-- What is appended to the log file of the day; `none` if an exception stops the work before.
unfoldable pub process_completed_message :
    (ℕ → TimeError) → Crypto → Bytes → Text → Text → Dict ℤ Bytes → ℤ → Option Text
process_completed_message late c salt msg_id source_ip frames total_frames = do
  raw_text ← read_message c frames total_frames
  r ← make_report late c salt raw_text
  some (final_report msg_id source_ip total_frames r ++ codes "\n\n")
