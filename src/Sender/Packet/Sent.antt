-- ===== src/Sender/Packet/Sent.antt =====
-- The packets of a message.
use cluster_size_operator_fo.Prelude.{
  ℕ, zero, suc, ◌+◌, ◌-◌, ◌*◌, ◌/◌, ◌%◌, ◌<◌, ◌≤◌, ◌≡◌, refl, ◌∙◌, Option, some, List, [], ◌∷◌,
  length, length-append, take, drop, arith, All,
}
use cluster_size_operator_fo.Text.{Text, join}
use cluster_size_operator_fo.Text.Number.{show, show_digits}
use cluster_size_operator_fo.Base64.{Bytes}
use cluster_size_operator_fo.Lifecycle.{◌>>=◌}
use cluster_size_operator_fo.Sender.{
  chunk_size, total_frames, bin_chunk, udp_payload, send_frames, send_segmented_payload,
}
use cluster_size_operator_fo.Sender.Header.{header_text, udp_payload_lem}
use cluster_size_operator_fo.Sender.Packet.{target_ip, packets}
use cluster_size_operator_fo.Sender.Packet.Fields.{HasAddress, IsPacket, packet-IsPacket}

abbrev pow10 : ℕ → ℕ
pow10 zero = 1
pow10 (suc k) = 10 * pow10 k

length-show_digits :
    (f n k : ℕ) (out : Text) → n < pow10 (suc k) → length (show_digits f n out) ≤ suc k + length out
unfolding show_digits
length-show_digits zero n k out h = omega arith
length-show_digits (suc f) n zero out h = ground arith
length-show_digits (suc f) n (suc k) out h =
    ground (arith, length-show_digits f (n / 10) k ((b'0' + n % 10) ∷ out))

length-show : (n : ℕ) → n < 1000000 → length (show n) ≤ 6
unfolding show
length-show n h = length-show_digits (suc n) n 5 [] h

length-take : (n : ℕ) (s : Bytes) → length (take n s) ≤ n
length-take zero s = omega arith
length-take (suc n) [] = omega arith
length-take (suc n) (c ∷ s) = omega (arith, length-take n s)

-- A datagram that fits into a packet.
abbrev pub FitsPacket : Bytes → Type 0
FitsPacket s = 28 + length s < 65536

length-bin_chunk :
    (gzip_data : Bytes) (frame_idx : ℕ) → length (bin_chunk gzip_data frame_idx) ≤ 8192
unfolding bin_chunk
length-bin_chunk gzip_data frame_idx =
    length-take 8192 (drop ((frame_idx - 1) * chunk_size) gzip_data)

length-header_text :
    (msg_id frame_idx total : ℕ)
    → length (header_text msg_id frame_idx total)
      ≡ length (show msg_id) + (1 + (length (show frame_idx) + (1 + length (show total))))
unfolding join
length-header_text msg_id frame_idx total =
    length-append (show msg_id) _
    ∙ omega (arith, length-append (show frame_idx) (b',' ∷ show total))

udp_payload-FitsPacket :
    (msg_id frame_idx total : ℕ) (chunk : Bytes)
    → msg_id < 1000000
    → frame_idx < 1000000
    → total < 1000000
    → length chunk ≤ 8192
    → FitsPacket (udp_payload msg_id frame_idx total chunk)
udp_payload-FitsPacket msg_id frame_idx total chunk h k l m =
    rw (udp_payload_lem msg_id frame_idx total chunk) (
      omega (
        arith,
        length-append (header_text msg_id frame_idx total) (b'|' ∷ chunk),
        length-header_text msg_id frame_idx total,
        length-show msg_id h,
        length-show frame_idx k,
        length-show total l,
      ))

send_frames-FitsPacket :
    (msg_id total : ℕ) (gzip_data : Bytes) (frame_idx count : ℕ)
    → msg_id < 1000000
    → total < 1000000
    → frame_idx + count ≤ 1000000
    → All FitsPacket (send_frames msg_id total gzip_data frame_idx count)
unfolding send_frames
send_frames-FitsPacket msg_id total gzip_data frame_idx zero h k l = tt
send_frames-FitsPacket msg_id total gzip_data frame_idx (suc count) h k l = (
  udp_payload-FitsPacket msg_id frame_idx total (bin_chunk gzip_data frame_idx) h (omega arith) k
      (length-bin_chunk gzip_data frame_idx),
  send_frames-FitsPacket msg_id total gzip_data (suc frame_idx) count h k (omega arith),
)

-- The packets of UDP payloads, in their order.
abbrev pub ArePackets : List Bytes → List Bytes → Type 0
ArePackets [] [] = Unit
ArePackets [] (s ∷ ss) = ⊥
ArePackets (p ∷ ps) [] = ⊥
ArePackets (p ∷ ps) (s ∷ ss) = IsPacket p s × ArePackets ps ss

packets-ArePackets :
    (inet_aton : Text → Option Bytes) (src_ip : Text) (random : ℕ → ℕ × ℕ) (i : ℕ) (ss : List Bytes)
    → HasAddress inet_aton src_ip
    → HasAddress inet_aton target_ip
    → ((j : ℕ) → ((random j).0 < 65536) × ((random j).1 < 65536))
    → All FitsPacket ss
    → (ps : List Bytes) × (packets inet_aton src_ip random i ss ≡ some ps) × ArePackets ps ss
unfolding packets
packets-ArePackets inet_aton src_ip random i [] src dst h fits = ([], refl, tt)
packets-ArePackets inet_aton src_ip random i (s ∷ ss) src dst h (fit, fits) =
    let (p, sent, is) =
      packet-IsPacket inet_aton src_ip (random i).0 (random i).1 s src dst (h i).0 (h i).1 fit in
    let (ps, rest, are) = packets-ArePackets inet_aton src_ip random (suc i) ss src dst h fits in
    (p ∷ ps, rw (sent, rest, ◌>>=◌) refl, (is, are))

-- For a message id of at most six digits and fewer than a million frames, no number of a header is too large for its
-- field: there is a packet for each datagram, in the order of the frames, with the length of the packet and of the UDP
-- part and the port of the receiver in the headers, and with the datagram behind them. Both addresses have four bytes.
pub packets-send_segmented_payload :
    (inet_aton : Text → Option Bytes) (src_ip : Text) (random : ℕ → ℕ × ℕ) (msg_id : ℕ)
    (gzip_data : Bytes)
    → HasAddress inet_aton src_ip
    → HasAddress inet_aton target_ip
    → ((j : ℕ) → ((random j).0 < 65536) × ((random j).1 < 65536))
    → msg_id < 1000000
    → total_frames gzip_data < 1000000
    → (ps : List Bytes) × (packets inet_aton src_ip random 0
          (send_segmented_payload msg_id gzip_data)
        ≡ some ps)
      × ArePackets ps (send_segmented_payload msg_id gzip_data)
packets-send_segmented_payload inet_aton src_ip random msg_id gzip_data src dst h k l =
    packets-ArePackets inet_aton src_ip random 0 (send_segmented_payload msg_id gzip_data) src dst h
      (unfold send_segmented_payload in
        send_frames-FitsPacket msg_id (total_frames gzip_data) gzip_data 1 (total_frames gzip_data)
          k l (omega arith))
