-- ===== src/Tests/Payload.antt =====
-- A payload of the emulator and a payload of a scenario of the attack simulator, with a codec and a
-- digest that stand in for gzip and HMAC-SHA256.
use cluster_size_operator_fo.Prelude.{append-nil, Option, ◌&&◌, true, All}
use cluster_size_operator_fo.Prelude.Int.{ℤ, pos, int_eq}
use cluster_size_operator_fo.Dict.{Dict}
use cluster_size_operator_fo.Base64.Ascii.{IsAscii}
use cluster_size_operator_fo.Receiver.Decode.Lines.{in_time, InTime}
use cluster_size_operator_fo.Receiver.Message.{join_frames, read_message}
use cluster_size_operator_fo.Receiver.ClusterIds.{CidFile}
use cluster_size_operator_fo.Receiver.ClusterIds.Handler.{log_message}
use cluster_size_operator_fo.Sender.Payload.{signature}
use cluster_size_operator_fo.Sender.Payload.Rows.{payload_lines-IsRow}
use cluster_size_operator_fo.Sender.Payload.Transmitted.{read_message_text}
use cluster_size_operator_fo.Sender.Payload.Verified.{payload_lines-ne-nil, signed_status}
use cluster_size_operator_fo.Prelude.{
  Bool, false, contains, ℕ, zero, suc, ◌+◌, ◌%◌, ◌≡◌, refl, ap, true, Option, some, none, List, [],
  ◌∷◌, arith, All, length, get_or, nat_eq, list_eq,
}
use cluster_size_operator_fo.Prelude.Int.{◌-ℤ◌}
use cluster_size_operator_fo.Text.{Text, codes, split, split_once, strip, join, starts_with}
use cluster_size_operator_fo.Text.Number.{show, int_of, read_digits, show_digits, show_int}
use cluster_size_operator_fo.Base64.{Bytes, utf8_decode, utf8_encode, encode_char, b64encode}
use cluster_size_operator_fo.Dates.Stamp.{os_error}
use cluster_size_operator_fo.Dict.{lookup}
use cluster_size_operator_fo.Receiver.Message.{Crypto, verified, tampered, calculated_mac}
use cluster_size_operator_fo.Receiver.Assembly.{Buffer, parse_datagram, receive_all}
use cluster_size_operator_fo.Receiver.Assembly.Track.{mine, about}
use cluster_size_operator_fo.Sender.{send_segmented_payload}
use cluster_size_operator_fo.Sender.Frames.{from}
use cluster_size_operator_fo.Sender.Payload.{
  payload_lines, full_payload_text, build_cluster_payload, pad3,
}
use cluster_size_operator_fo.Sender.Payload.Signed.{is_hex, IsHexdigest}
use cluster_size_operator_fo.Sender.Payload.Transmitted.{IsCodec, IsReported}
use cluster_size_operator_fo.Receiver.ClusterIds.{fits, existing_ids}
use cluster_size_operator_fo.Receiver.ClusterIds.Found.{IsId}
use cluster_size_operator_fo.Receiver.ClusterIds.Union.{IsArrangement}
use cluster_size_operator_fo.Sender.Payload.Logged.{build_cluster_payload-logged}
use cluster_size_operator_fo.Sender.Payload.Verified.{build_cluster_payload-verified}
use cluster_size_operator_fo.Sender.Attack.{
  pristine_lines, mutate, replace_from, corrupted_payload_text, build_corrupted_payload,
}
use cluster_size_operator_fo.Sender.Attack.Changed.{AreIds}
use cluster_size_operator_fo.Sender.Attack.Detected.{NoCollision, build_corrupted_payload-tampered}

abbrev digest : ℕ → ℕ → Text
digest zero d = []
digest (suc n) d = d ∷ digest n d

digest-hex : (n d : ℕ) → is_hex d ≡ true → All (λ c. is_hex c ≡ true) (digest n d)
digest-hex zero d h = tt
digest-hex (suc n) d h = (h, digest-hex n d h)

abbrev without_header : Bytes → Option Bytes
without_header [] = none
without_header (b ∷ s) = some s

abbrev stand_in : Crypto
stand_in = record {
  gunzip = without_header;
  hmac_hex = λ key m. digest 64 (b'0' + (length key + length m) % 10);
}

abbrev with_header : Bytes → Bytes
with_header s = 31 ∷ s

stand_in-IsCodec : IsCodec stand_in with_header
stand_in-IsCodec = record { inverse = λ s. refl; not_empty = λ s e. cc }

decimal-is_hex : (n : ℕ) → is_hex (b'0' + n % 10) ≡ true
decimal-is_hex n = ground arith

stand_in-IsHexdigest : (key m : Bytes) → IsHexdigest (stand_in.hmac_hex key m)
stand_in-IsHexdigest key m = record {
  long = refl;
  digits =
      digest-hex 64 (b'0' + (length key + length m) % 10) (decimal-is_hex (length key + length m));
}

abbrev salt : Bytes
salt = codes "salt"

abbrev cluster_id : Text
cluster_id = codes "3f2a7c10-5b1e-4d7e-9a61-0c2f4e8d9b77"

abbrev other_id : Text
other_id = codes "91b0d3ce-77aa-4f06-8c35-d2e1f0a94b58"

ids : AreIds cluster_id other_id
ids = record {
  plain = omega arith;
  other_plain = omega arith;
  some_text = λ e. cc;
  start = omega arith;
  same_length = refl;
  different = λ e. omega (arith, ap (λ (t : Text). get_or t 0 0) e);
}

abbrev random : ℕ → ℕ
random i = i

abbrev payload : Bytes
payload = build_cluster_payload stand_in with_header cluster_id 40 salt 1790000000 random

abbrev arrivals : Bytes → List (Text × Bytes)
arrivals p =
    (codes "10.0.0.2", codes "m2,1,3|xy")
    ∷ from (codes "10.0.0.1") (send_segmented_payload 123456 p)

abbrev buffer : Buffer
buffer = []

buffer-new : lookup (show 123456) buffer ≡ none
unfolding lookup
buffer-new = refl

arrivals-same :
    (p : Bytes)
    → mine (show 123456) (arrivals p)
      ≡ mine (show 123456) (from (codes "10.0.0.1") (send_segmented_payload 123456 p))
unfolding parse_datagram split_once utf8_decode split int_of read_digits strip show nat_eq list_eq
arrivals-same p = refl

build_cluster_payload-verified_example :
    (x : IsReported
      (λ k. os_error)
      stand_in
      salt
      (full_payload_text stand_in salt (payload_lines cluster_id 40 1790000000 random))
      (about (show 123456) (receive_all buffer (arrivals payload)).1))
    × (x.r.status ≡ verified)
    × (length x.r.processed_lines ≡ length (payload_lines cluster_id 40 1790000000 random) + 1)
build_cluster_payload-verified_example =
    build_cluster_payload-verified (λ k. os_error) stand_in with_header salt cluster_id 40
      1790000000 random 123456 (codes "10.0.0.1") (arrivals payload) buffer (omega arith)
      stand_in-IsCodec (stand_in-IsHexdigest salt) ids.plain (omega arith) buffer-new
      (arrivals-same payload)

abbrev corrupted : Bytes
corrupted = build_corrupted_payload stand_in with_header cluster_id other_id 3 salt 1790000000

signed_digest :
    get_or (calculated_mac stand_in salt (pristine_lines cluster_id 1790000000)) 0 0 ≡ 53
unfolding calculated_mac pristine_lines join pad3 show show_digits show_int ◌-ℤ◌ utf8_encode
    encode_char b64encode
signed_digest = refl

sent_digest :
    get_or
      (calculated_mac stand_in salt
        (mutate 3 cluster_id other_id (pristine_lines cluster_id 1790000000)))
      0
      0
    ≡ 52
unfolding calculated_mac pristine_lines mutate replace_from join pad3 show show_digits show_int ◌-ℤ◌
    starts_with nat_eq utf8_encode encode_char b64encode
sent_digest = refl

digests-differ :
    NoCollision stand_in salt
      (pristine_lines cluster_id 1790000000)
      (mutate 3 cluster_id other_id (pristine_lines cluster_id 1790000000))
digests-differ e =
    absurd (omega (arith, ap (λ (t : Text). get_or t 0 0) e, signed_digest, sent_digest))

abbrev all_in_time : List Text → Bool
all_in_time [] = true
all_in_time (line ∷ lines) = in_time line && all_in_time lines

all_in_time-InTime : (lines : List Text) → all_in_time lines ≡ true → All InTime lines
all_in_time-InTime [] h = tt
all_in_time-InTime (line ∷ lines) h = (ground arith, all_in_time-InTime lines (ground arith))

sent_in_time :
    all_in_time (mutate 3 cluster_id other_id (pristine_lines cluster_id 1790000000)) ≡ true
unfolding pristine_lines mutate replace_from join pad3 show show_digits show_int ◌-ℤ◌ starts_with
    nat_eq utf8_encode encode_char b64encode split strip int_of read_digits
sent_in_time = refl

build_corrupted_payload-tampered_example :
    (x : IsReported
      (λ k. os_error)
      stand_in
      salt
      (corrupted_payload_text stand_in cluster_id other_id 3 salt 1790000000)
      (about (show 123456) (receive_all buffer (arrivals corrupted)).1))
    × (x.r.status ≡ tampered)
build_corrupted_payload-tampered_example =
    build_corrupted_payload-tampered (λ k. os_error) stand_in with_header salt cluster_id other_id 3
      1790000000 123456 (codes "10.0.0.1") (arrivals corrupted) buffer (omega arith) (omega arith)
      (all_in_time-InTime _ sent_in_time) stand_in-IsCodec (stand_in-IsHexdigest salt) ids
      digests-differ buffer-new (arrivals-same corrupted)

abbrev as_is : List Text → List Text
as_is ids = ids

as_is-IsArrangement : IsArrangement as_is
as_is-IsArrangement = record { same = λ xs x. refl; distinct = λ xs h. h }

abbrev no_wide_word : ℕ → Bool
no_wide_word c = false

cluster_id-IsId : IsId cluster_id
unfolding fits nat_eq
cluster_id-IsId = record { long = refl; shape = refl }

abbrev sent_text : Text
sent_text = full_payload_text stand_in salt (payload_lines cluster_id 40 1790000000 random)

one_frame : (p : Bytes) → join_frames ((pos 1, p) ∷ []) 1 1 ≡ some p
unfolding join_frames lookup int_eq nat_eq
one_frame p = ap some (append-nil p)

abbrev one_payload : Dict ℤ Bytes
one_payload = (pos 1, with_header (utf8_encode sent_text)) ∷ []

sent_text-IsAscii : IsAscii sent_text
sent_text-IsAscii =
    let (_, _, ascii) =
      signed_status stand_in salt (payload_lines cluster_id 40 1790000000 random)
        (payload_lines-ne-nil cluster_id 40 1790000000 random)
        (payload_lines-IsRow cluster_id 40 1790000000 random ids.plain)
        (unfold signature in stand_in-IsHexdigest salt _) in
    ascii

one_payload-read : read_message stand_in one_payload (pos 1) ≡ some sent_text
one_payload-read =
    read_message_text stand_in with_header sent_text one_payload 1 stand_in-IsCodec
      sent_text-IsAscii (one_frame (with_header (utf8_encode sent_text)))

abbrev cid_file : Option CidFile
cid_file = some (record { lines = other_id ∷ []; tail = [] })

build_cluster_payload-logged_example :
    contains
      (existing_ids
        (log_message as_is no_wide_word (λ k. os_error) stand_in salt one_payload (pos 1) cid_file))
      cluster_id
    ≡ true
build_cluster_payload-logged_example =
    build_cluster_payload-logged (λ k. os_error) stand_in salt cluster_id 40 1790000000 random as_is
      no_wide_word one_payload (pos 1) cid_file one_payload-read (omega arith)
      (stand_in-IsHexdigest salt) as_is-IsArrangement refl cluster_id-IsId
