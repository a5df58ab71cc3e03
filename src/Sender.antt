-- ===== src/Sender.antt =====
-- `send_segmented_payload` of telemetry_receiver/load_integrity_tets/telemetry_traffic_emulator.py and
-- of telemetry_attack_simulator.py beside it: the UDP payloads of the packets, in the order they are
-- sent. The message id, a random number, is an argument; the headers of IP and UDP are
-- those of Packet.
pub mod Header
pub mod Frames
pub mod Delivery
pub mod Payload
pub mod Attack
pub mod Packet
pub mod Salt
use cluster_size_operator_fo.Prelude.{
  ℕ, zero, suc, ◌+◌, ◌-◌, ◌*◌, ◌/◌, List, [], ◌∷◌, ◌++◌, length, take, drop,
}
use cluster_size_operator_fo.Text.{Text, join}
use cluster_size_operator_fo.Text.Number.{show}
use cluster_size_operator_fo.Base64.{Bytes, utf8_encode}

abbrev pub chunk_size : ℕ
chunk_size = 8192

unfoldable pub total_frames : Bytes → ℕ
total_frames gzip_data = (length gzip_data + chunk_size - 1) / chunk_size

-- `gzip_data[start:end]`
unfoldable pub bin_chunk : Bytes → ℕ → Bytes
bin_chunk gzip_data frame_idx = take chunk_size (drop ((frame_idx - 1) * chunk_size) gzip_data)

-- `f"{msg_id},{frame_idx},{total_frames}|"`
abbrev pub protocol_header : ℕ → ℕ → ℕ → Text
protocol_header msg_id frame_idx total =
    join b',' (show msg_id ∷ show frame_idx ∷ show total ∷ []) ++ b'|' ∷ []

unfoldable pub udp_payload : ℕ → ℕ → ℕ → Bytes → Bytes
udp_payload msg_id frame_idx total chunk =
    utf8_encode (protocol_header msg_id frame_idx total) ++ chunk

-- `count` rounds of the loop, from `frame_idx` on.
unfoldable pub send_frames : ℕ → ℕ → Bytes → ℕ → ℕ → List Bytes
send_frames msg_id total gzip_data frame_idx zero = []
send_frames msg_id total gzip_data frame_idx (suc count) =
    udp_payload msg_id frame_idx total (bin_chunk gzip_data frame_idx)
    ∷ send_frames msg_id total gzip_data (suc frame_idx) count

unfoldable pub send_segmented_payload : ℕ → Bytes → List Bytes
send_segmented_payload msg_id gzip_data =
    send_frames msg_id (total_frames gzip_data) gzip_data 1 (total_frames gzip_data)
