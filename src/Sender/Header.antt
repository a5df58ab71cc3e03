-- ===== src/Sender/Header.antt =====
-- The receiver reads the header of a frame back.
use cluster_size_operator_fo.Prelude.{
  ℕ, ◌<◌, ◌≡◌, ◌≢◌, refl, true, some, [], ◌∷◌, ◌++◌, arith, All, All-append, nat_eq, append_assoc,
}
use cluster_size_operator_fo.Prelude.Int.{pos}
use cluster_size_operator_fo.Text.{Text, join, split, split_once}
use cluster_size_operator_fo.Text.Split.{Lacks, split-join}
use cluster_size_operator_fo.Text.Number.{is_digit, show}
use cluster_size_operator_fo.Text.Printed.{int_of-show, All-show}
use cluster_size_operator_fo.Base64.Ascii.{IsAscii, utf8_encode-IsAscii, utf8_decode-IsAscii}
use cluster_size_operator_fo.Base64.{Bytes}
use cluster_size_operator_fo.Lifecycle.{◌>>=◌}
use cluster_size_operator_fo.Receiver.Assembly.{Datagram, parse_datagram}
use cluster_size_operator_fo.Sender.{protocol_header, udp_payload}

split_once-append :
    (sep : ℕ) (p rest : Text) → Lacks sep p → split_once sep (p ++ sep ∷ rest) ≡ some (p, rest)
unfolding split_once
split_once-append sep [] rest h = ground arith
split_once-append sep (c ∷ p) rest (h, hs) = ground (arith, split_once-append sep p rest hs)

digit-range : (c : ℕ) → is_digit c ≡ true → (c < 128) × (c ≢ b',') × (c ≢ b'|')
unfolding is_digit
digit-range c h = ground arith

abbrev pub header_text : ℕ → ℕ → ℕ → Text
header_text msg_id frame_idx total = join b',' (show msg_id ∷ show frame_idx ∷ show total ∷ [])

header_text-All :
    (P : ℕ → Type 0) (msg_id frame_idx total : ℕ)
    → ((c : ℕ) → is_digit c ≡ true → P c)
    → P b','
    → All P (header_text msg_id frame_idx total)
unfolding join
header_text-All P msg_id frame_idx total p comma =
    All-append P (show msg_id) (b',' ∷ (show frame_idx ++ b',' ∷ show total)) (All-show P msg_id p)
      (
        comma,
        All-append P (show frame_idx) (b',' ∷ show total) (All-show P frame_idx p)
            (comma, All-show P total p),
      )

header_text-IsAscii : (msg_id frame_idx total : ℕ) → IsAscii (header_text msg_id frame_idx total)
header_text-IsAscii msg_id frame_idx total =
    header_text-All (λ c. c < 128) msg_id frame_idx total (λ c h. (digit-range c h).0) (omega arith)

header_text-Lacks : (msg_id frame_idx total : ℕ) → Lacks b'|' (header_text msg_id frame_idx total)
header_text-Lacks msg_id frame_idx total =
    header_text-All (λ c. c ≢ b'|') msg_id frame_idx total (λ c h. (digit-range c h).2)
      (omega arith)

split-header_text :
    (msg_id frame_idx total : ℕ)
    → split b',' (header_text msg_id frame_idx total)
      ≡ show msg_id ∷ show frame_idx ∷ show total ∷ []
split-header_text msg_id frame_idx total =
    split-join b',' (show msg_id) (show frame_idx ∷ show total ∷ []) (number msg_id)
      (number frame_idx, (number total, tt))
  where
    number : (n : ℕ) → Lacks b',' (show n)
    number n = All-show (λ c. c ≢ b',') n (λ c h. (digit-range c h).1)

-- What the receiver reads in a frame that was sent.
abbrev pub datagram : ℕ → ℕ → ℕ → Bytes → Datagram
datagram msg_id frame_idx total chunk = record {
  msg_id = show msg_id;
  frame_num = pos frame_idx;
  total_frames = pos total;
  bin_part = chunk;
}

pub udp_payload_lem :
    (msg_id frame_idx total : ℕ) (chunk : Bytes)
    → udp_payload msg_id frame_idx total chunk ≡ header_text msg_id frame_idx total ++ b'|' ∷ chunk
unfolding udp_payload
udp_payload_lem msg_id frame_idx total chunk =
    rw
      (utf8_encode-IsAscii (protocol_header msg_id frame_idx total) (
        All-append (λ c. c < 128) (header_text msg_id frame_idx total) (b'|' ∷ [])
          (header_text-IsAscii msg_id frame_idx total) (omega arith, tt)))
      (append_assoc (header_text msg_id frame_idx total) (b'|' ∷ []) chunk)

pub parse_datagram-udp_payload :
    (msg_id frame_idx total : ℕ) (chunk : Bytes)
    → parse_datagram (udp_payload msg_id frame_idx total chunk)
      ≡ some (datagram msg_id frame_idx total chunk)
unfolding parse_datagram
parse_datagram-udp_payload msg_id frame_idx total chunk =
    rw
      (
        udp_payload_lem msg_id frame_idx total chunk,
        split_once-append b'|' (header_text msg_id frame_idx total) chunk
            (header_text-Lacks msg_id frame_idx total),
        ◌>>=◌,
        utf8_decode-IsAscii (header_text msg_id frame_idx total)
            (header_text-IsAscii msg_id frame_idx total),
        split-header_text msg_id frame_idx total,
        int_of-show frame_idx,
        int_of-show total,
      )
      refl
