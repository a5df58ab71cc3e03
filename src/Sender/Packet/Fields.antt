-- ===== src/Sender/Packet/Fields.antt =====
-- The fields of a packet.
use cluster_size_operator_fo.Prelude.{
  ℕ, suc, ◌+◌, ◌*◌, ◌/◌, ◌%◌, ◌<◌, ◌≡◌, refl, Option, some, [], ◌∷◌, ◌++◌, length, drop, get_or,
  arith,
}
use cluster_size_operator_fo.Text.{Text}
use cluster_size_operator_fo.Base64.{Bytes}
use cluster_size_operator_fo.Lifecycle.{◌>>=◌}
use cluster_size_operator_fo.Sender.Packet.{
  pack_b, pack_h, target_ip, target_port, pack_ip_header, pack_udp_header, build_ip_udp_header,
  packet,
}

-- A number of two bytes, in network order.
abbrev pub word_at : Bytes → ℕ → ℕ
word_at p i = 256 * get_or p i 0 + get_or p (suc i) 0

-- What a packet carries: the lengths, the port and the payload behind the two headers.
pub record IsPacket (p udp_payload : Bytes) : Type 0 where
  pub total_length : word_at p 2 ≡ length p
  pub udp_length : word_at p 24 ≡ 8 + length udp_payload
  pub port : word_at p 22 ≡ target_port
  pub payload : drop 28 p ≡ udp_payload

-- An address of four bytes.
pub record HasAddress (inet_aton : Text → Option Bytes) (ip : Text) : Type 0 where
  pub a : ℕ
  pub b : ℕ
  pub c : ℕ
  pub d : ℕ
  pub known : inet_aton ip ≡ some (a ∷ b ∷ c ∷ d ∷ [])

pack_h_fits : (n : ℕ) → n < 65536 → pack_h n ≡ some (n / 256 ∷ n % 256 ∷ [])
unfolding pack_h
pack_h_fits n h = ground arith

abbrev address : (inet_aton : Text → Option Bytes) (ip : Text) → HasAddress inet_aton ip → Bytes
address inet_aton ip h = h.a ∷ h.b ∷ h.c ∷ h.d ∷ []

-- The bytes of a packet, with the addresses of both sides.
abbrev packet_bytes : Bytes → Bytes → ℕ → ℕ → Bytes → Bytes
packet_bytes src dst ip_id udp_src_port udp_payload =
    let total = 20 + 8 + length udp_payload in
    let udp_len = 8 + length udp_payload in
    69
    ∷ 0
    ∷ total / 256
    ∷ total % 256
    ∷ ip_id / 256
    ∷ ip_id % 256
    ∷ 0
    ∷ 0
    ∷ 64
    ∷ 17
    ∷ 0
    ∷ 0
    ∷ (src
        ++ (dst
            ++ udp_src_port / 256
              ∷ udp_src_port % 256
              ∷ 2
              ∷ 43
              ∷ udp_len / 256
              ∷ udp_len % 256
              ∷ 0
              ∷ 0
              ∷ udp_payload))

pub packet-IsPacket :
    (inet_aton : Text → Option Bytes) (src_ip : Text) (ip_id udp_src_port : ℕ) (udp_payload : Bytes)
    → HasAddress inet_aton src_ip
    → HasAddress inet_aton target_ip
    → ip_id < 65536
    → udp_src_port < 65536
    → 28 + length udp_payload < 65536
    → (p : Bytes) × (packet inet_aton src_ip ip_id udp_src_port udp_payload ≡ some p)
      × IsPacket p udp_payload
unfolding packet build_ip_udp_header pack_ip_header pack_udp_header pack_b pack_h
packet-IsPacket inet_aton src_ip ip_id udp_src_port udp_payload src dst h k l = (
  packet_bytes (address inet_aton src_ip src) (address inet_aton target_ip dst) ip_id udp_src_port
      udp_payload,
  rw
      (
        src.known,
        dst.known,
        pack_h_fits (20 + 8 + length udp_payload) (omega arith),
        pack_h_fits ip_id h,
        pack_h_fits udp_src_port k,
        pack_h_fits (8 + length udp_payload) (omega arith),
        ◌>>=◌,
      )
      refl,
  record {
    total_length = omega arith;
    udp_length = omega arith;
    port = omega arith;
    payload = refl;
  },
)
