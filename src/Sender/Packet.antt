-- ===== src/Sender/Packet.antt =====
-- `build_ip_udp_header` of telemetry_receiver/load_integrity_tets/telemetry_traffic_emulator.py and of
-- telemetry_attack_simulator.py beside it, and the packets that `send_segmented_payload` gives to the
-- raw socket. `inet_aton` gives the bytes of an address; the random numbers are arguments. `none` is
-- an exception, such as the `struct.error` of a number that does not fit.
pub mod Fields
pub mod Sent
use cluster_size_operator_fo.Prelude.{
  ℕ, zero, suc, ◌+◌, ◌*◌, ◌/◌, ◌%◌, Option, none, some, List, [], ◌∷◌, ◌++◌, length, take, ltb,
  if◌then◌else◌,
}
use cluster_size_operator_fo.Text.{Text, codes}
use cluster_size_operator_fo.Base64.{Bytes}
use cluster_size_operator_fo.Lifecycle.{◌>>=◌}

-- `B`, `H` and `4s` of `struct.pack`, in network order.
unfoldable pub pack_b : ℕ → Option Bytes
pack_b n = if ltb n 256 then some (n ∷ []) else none

unfoldable pub pack_h : ℕ → Option Bytes
pack_h n = if ltb n 65536 then some (n / 256 ∷ n % 256 ∷ []) else none

abbrev pub pack_4s : Bytes → Bytes
pack_4s s = take 4 (s ++ 0 ∷ 0 ∷ 0 ∷ 0 ∷ [])

abbrev pub target_ip : Text
target_ip = codes "192.168.100.254"

abbrev pub target_port : ℕ
target_port = 555

-- `socket.IPPROTO_UDP`
abbrev pub ip_proto : ℕ
ip_proto = 17

unfoldable pub pack_ip_header : ℕ → ℕ → Bytes → Bytes → Option Bytes
pack_ip_header ip_tot_len ip_id ip_saddr ip_daddr = do
  ihl_ver ← pack_b (4 * 16 + 5)
  tos ← pack_b 0
  tot_len ← pack_h ip_tot_len
  id ← pack_h ip_id
  frag_off ← pack_h 0
  ttl ← pack_b 64
  proto ← pack_b ip_proto
  check ← pack_h 0
  some (
      ihl_ver
      ++ tos
      ++ tot_len
      ++ id
      ++ frag_off
      ++ ttl
      ++ proto
      ++ check
      ++ pack_4s ip_saddr
      ++ pack_4s ip_daddr)

unfoldable pub pack_udp_header : ℕ → ℕ → ℕ → Option Bytes
pack_udp_header udp_src_port dst_port udp_len = do
  src ← pack_h udp_src_port
  dst ← pack_h dst_port
  len ← pack_h udp_len
  check ← pack_h 0
  some (src ++ dst ++ len ++ check)

unfoldable pub build_ip_udp_header :
    (Text → Option Bytes) → Text → Text → ℕ → ℕ → ℕ → ℕ → Option Bytes
build_ip_udp_header inet_aton src_ip dst_ip dst_port payload_len ip_id udp_src_port = do
  ip_saddr ← inet_aton src_ip
  ip_daddr ← inet_aton dst_ip
  ip_header ← pack_ip_header (20 + 8 + payload_len) ip_id ip_saddr ip_daddr
  udp_header ← pack_udp_header udp_src_port dst_port (8 + payload_len)
  some (ip_header ++ udp_header)

unfoldable pub packet : (Text → Option Bytes) → Text → ℕ → ℕ → Bytes → Option Bytes
packet inet_aton src_ip ip_id udp_src_port udp_payload = do
  header ←
      build_ip_udp_header inet_aton src_ip target_ip target_port (length udp_payload) ip_id
        udp_src_port
  some (header ++ udp_payload)

-- The packets of UDP payloads; `random` gives the id and the port of each.
unfoldable pub packets :
    (Text → Option Bytes) → Text → (ℕ → ℕ × ℕ) → ℕ → List Bytes → Option (List Bytes)
packets inet_aton src_ip random i [] = some []
packets inet_aton src_ip random i (udp_payload ∷ rest) = do
  p ← packet inet_aton src_ip (random i).0 (random i).1 udp_payload
  ps ← packets inet_aton src_ip random (suc i) rest
  some (p ∷ ps)
