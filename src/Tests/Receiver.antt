-- ===== src/Tests/Receiver.antt =====
-- The theorems on `telemetry_receiver.py` at concrete inputs.
use cluster_size_operator_fo.Prelude.{
  ◌≡◌, ◌+◌, ◌%◌, refl, arith, some, none, List, [], ◌∷◌, ◌++◌, length, nat_eq, list_eq,
}
use cluster_size_operator_fo.Text.{Text, codes, strip, split, split_once, starts_with, join}
use cluster_size_operator_fo.Base64.{Bytes, utf8_decode, decode_text, utf8_encode, encode_char}
use cluster_size_operator_fo.Dict.{Dict, lookup, or_else}
use cluster_size_operator_fo.Dates.Stamp.{last_second}
use cluster_size_operator_fo.Receiver.Decode.Moment.{Decoded, decode_epoch-Decoded}
use cluster_size_operator_fo.Receiver.Decode.{decode_epoch}
use cluster_size_operator_fo.Prelude.Int.{◌≤ℤ◌, ℤ, pos, int_eq}
use cluster_size_operator_fo.Receiver.Message.Complete.{process_completed_message_complete}
use cluster_size_operator_fo.Receiver.Message.{
  Report, join_frames, read_message, final_report, process_completed_message, Crypto,
  protected_lines, calculated_mac, integrity, raw_lines,
}
use cluster_size_operator_fo.Receiver.Assembly.{
  Buffer, Submission, parse_datagram, receive, receive_all,
}
use cluster_size_operator_fo.Receiver.Assembly.Track.{Tracks, mine, about, receive_all-Tracks}
use cluster_size_operator_fo.Receiver.Assembly.Delivery.{IsMessage, concat, receive_all_delivers}
use cluster_size_operator_fo.Text.Number.{int_of, read_digits}
use cluster_size_operator_fo.Receiver.Assembly.Pending.{IsPending, receive-IsPending}
use cluster_size_operator_fo.Prelude.{All}
use cluster_size_operator_fo.Receiver.Decode.Lines.{InTime}
use cluster_size_operator_fo.Tests.Data.{header_record, node_record, late}

decode_text_versions :
    decode_text (codes "MT00LjIwLjI3LDI9NC4xOS4zMA==") ≡ some (codes "1=4.20.27,2=4.19.30")
unfolding decode_text nat_eq
decode_text_versions = refl

decode_text_cut_short : decode_text (codes "UiwxPTQuMjAuMjcsMj") ≡ none
unfolding decode_text nat_eq
decode_text_cut_short = refl

-- A stand-in for the library: the texts are not compressed, and the digest is made of the key and the
-- length of the message.
abbrev plain : Crypto
plain = record {
  gunzip = λ s. some s;
  hmac_hex = λ key m. b'a' ∷ key ++ (b'a' + length m % 16) ∷ [];
}

abbrev lines : List Text
lines = header_record ∷ node_record ∷ []

digest_solid :
    strip (calculated_mac plain (b'k' ∷ []) (protected_lines lines))
    ≡ calculated_mac plain (b'k' ∷ []) (protected_lines lines)
unfolding strip calculated_mac nat_eq utf8_encode join protected_lines starts_with encode_char
digest_solid = refl

abbrev message : Text
message = codes "H,c1\nN,c1\nT,akk"

nothing-IsPending : IsPending []
unfolding lookup
nothing-IsPending m e h = cc

receive-IsPending_example : IsPending (receive [] (codes "10.0.0.1", codes "m1,1,2|ab")).0
receive-IsPending_example =
    receive-IsPending [] (codes "10.0.0.1", codes "m1,1,2|ab") nothing-IsPending

abbrev frames : Dict ℤ Bytes
frames = (pos 2, codes "\nN,c1\nT,akk") ∷ (pos 1, codes "H,c1") ∷ []

message_read : read_message plain frames (pos 2) ≡ some message
unfolding read_message join_frames utf8_decode lookup nat_eq int_eq
message_read = refl

message-InTime : All InTime (raw_lines message)
unfolding strip split starts_with nat_eq int_of read_digits
message-InTime = (refl, (refl, (refl, tt)))

process_completed_message_complete_example :
    (r : Report) × (process_completed_message late plain
        (b'k' ∷ [])
        (codes "m1")
        (codes "10.0.0.1")
        frames
        (pos 2)
      ≡ some (final_report (codes "m1") (codes "10.0.0.1") (pos 2) r ++ codes "\n\n"))
    × (r.status ≡ integrity plain (b'k' ∷ []) (raw_lines message))
    × (length r.processed_lines ≡ length (raw_lines message))
process_completed_message_complete_example =
    process_completed_message_complete late plain (b'k' ∷ []) (codes "m1") (codes "10.0.0.1") frames
      (pos 2) message message-InTime message_read

abbrev arrivals : List (Text × Bytes)
arrivals =
    (codes "10.0.0.1", codes "m1,2,2|cd")
    ∷ (codes "10.0.0.2", codes "m2,1,3|xy")
    ∷ (codes "10.0.0.1", codes "m1,1,2|ab")
    ∷ []

arrivals-mine :
    mine (codes "m1") arrivals
    ≡ (
      codes "10.0.0.1",
      record {
        msg_id = codes "m1";
        frame_num = pos 2;
        total_frames = pos 2;
        bin_part = codes "cd";
      },
    )
      ∷ (
        codes "10.0.0.1",
        record {
          msg_id = codes "m1";
          frame_num = pos 1;
          total_frames = pos 2;
          bin_part = codes "ab";
        },
      )
      ∷ []
unfolding parse_datagram split_once utf8_decode split int_of read_digits strip nat_eq list_eq
arrivals-mine = refl

arrivals-IsMessage : IsMessage (codes "ab" ∷ codes "cd" ∷ []) (mine (codes "m1") arrivals)
unfolding lookup int_eq nat_eq
arrivals-IsMessage = rw arrivals-mine (record {
  totals = (refl, (refl, tt));
  count = refl;
  no_repeat = (refl, (refl, tt));
  numbered = (refl, (refl, tt));
})

abbrev no_entries : Buffer
no_entries = []

none_kept : lookup (codes "m1") no_entries ≡ none
unfolding lookup
none_kept = refl

receive_all_delivers_example :
    (s : Submission) × (about (codes "m1") (receive_all [] arrivals).1 ≡ s ∷ [])
    × (s.total_frames ≡ pos (length (codes "ab" ∷ codes "cd" ∷ [])))
    × (join_frames s.frames 1 (length (codes "ab" ∷ codes "cd" ∷ []))
        ≡ some (concat (codes "ab" ∷ codes "cd" ∷ [])))
    × (lookup (codes "m1") (receive_all [] arrivals).0 ≡ none)
receive_all_delivers_example =
    receive_all_delivers (codes "m1") arrivals [] (codes "ab") (codes "cd" ∷ []) none_kept
      arrivals-IsMessage

receive_all-Tracks_example :
    Tracks
      (codes "m1")
      (lookup (codes "m1") no_entries)
      (mine (codes "m1") arrivals)
      (receive_all no_entries arrivals).0
      (receive_all no_entries arrivals).1
receive_all-Tracks_example = receive_all-Tracks (codes "m1") arrivals no_entries

epoch_bound : or_else (int_of (codes "1735689600")) (pos 0) ≤ℤ pos last_second
unfolding int_of read_digits strip nat_eq
epoch_bound = omega arith

decode_epoch-Decoded_example :
    (w : Text) × (decode_epoch late (codes "1735689600") ≡ some w)
    × Decoded (codes "1735689600") (int_of (codes "1735689600")) w
decode_epoch-Decoded_example = decode_epoch-Decoded late (codes "1735689600") epoch_bound
