-- ===== src/Tests/Sender.antt =====
-- A payload that is sent, between datagrams of another message.
use cluster_size_operator_fo.Prelude.{◌≡◌, refl, some, none, List, [], ◌∷◌, nat_eq, list_eq}
use cluster_size_operator_fo.Prelude.Int.{pos}
use cluster_size_operator_fo.Text.{Text, codes, split, split_once, strip}
use cluster_size_operator_fo.Text.Number.{show, int_of, read_digits}
use cluster_size_operator_fo.Base64.{Bytes, utf8_decode}
use cluster_size_operator_fo.Dict.{lookup}
use cluster_size_operator_fo.Receiver.Message.{join_frames}
use cluster_size_operator_fo.Receiver.Assembly.{Buffer, Submission, parse_datagram, receive_all}
use cluster_size_operator_fo.Receiver.Assembly.Track.{mine, about}
use cluster_size_operator_fo.Sender.{total_frames, send_segmented_payload}
use cluster_size_operator_fo.Sender.Frames.{from}
use cluster_size_operator_fo.Sender.Delivery.{send_segmented_payload-received}

abbrev buffer : Buffer
buffer = []

abbrev arrivals : List (Text × Bytes)
arrivals =
    (codes "10.0.0.2", codes "m2,1,3|xy")
    ∷ from (codes "10.0.0.1") (send_segmented_payload 123456 (codes "ab"))

buffer-new : lookup (show 123456) buffer ≡ none
unfolding lookup
buffer-new = refl

arrivals-same :
    mine (show 123456) arrivals
    ≡ mine (show 123456) (from (codes "10.0.0.1") (send_segmented_payload 123456 (codes "ab")))
unfolding parse_datagram split_once utf8_decode split int_of read_digits strip show nat_eq list_eq
arrivals-same = refl

send_segmented_payload-received_example :
    (s : Submission) × (about (show 123456) (receive_all buffer arrivals).1 ≡ s ∷ [])
    × (s.total_frames ≡ pos (total_frames (codes "ab")))
    × (join_frames s.frames 1 (total_frames (codes "ab")) ≡ some (codes "ab"))
send_segmented_payload-received_example =
    send_segmented_payload-received 123456 b'a' (b'b' ∷ []) (codes "10.0.0.1") arrivals buffer
      buffer-new arrivals-same
