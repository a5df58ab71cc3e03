-- ===== src/Sender/Payload.antt =====
-- `build_cluster_payload` of
-- telemetry_receiver/load_integrity_tets/telemetry_traffic_emulator.py. The compression, the clock and
-- the random choices of roles are arguments.
pub mod Rows
pub mod Lines
pub mod Signed
pub mod Transmitted
pub mod Verified
pub mod Logged
pub mod Timely
use cluster_size_operator_fo.Prelude.{
  ℕ, zero, suc, ◌+◌, ◌-◌, ◌%◌, List, [], ◌∷◌, ◌++◌, length, ltb, get_or, if◌then◌else◌,
}
use cluster_size_operator_fo.Prelude.Int.{pos, ◌-ℤ◌}
use cluster_size_operator_fo.Text.{Text, codes, join}
use cluster_size_operator_fo.Text.Number.{show, show_int}
use cluster_size_operator_fo.Base64.{Bytes, utf8_encode, b64encode}
use cluster_size_operator_fo.Receiver.Message.{Crypto}

-- `f"{i:03d}"`
unfoldable pub pad3 : ℕ → Text
pad3 i = if ltb i 10 then b'0' ∷ b'0' ∷ show i else if ltb i 100 then b'0' ∷ show i else show i

-- `f"N,{cluster_id},{i:03d},{role},{cpu},true"`
abbrev pub node_row : Text → ℕ → Text → Text → Text
node_row cluster_id i role cpu =
    join b',' (codes "N" ∷ cluster_id ∷ pad3 i ∷ role ∷ cpu ∷ codes "true" ∷ [])

-- The rows of the loops, `count` of them from the node `i` on; `role` gives the role of a node.
abbrev pub node_rows : Text → (ℕ → Text) → Text → ℕ → ℕ → List Text
node_rows cluster_id role cpu i zero = []
node_rows cluster_id role cpu i (suc count) =
    node_row cluster_id i (role i) cpu ∷ node_rows cluster_id role cpu (suc i) count

-- `f"H,{cluster_id},{total_nodes},1,2,{installed},0,{now_epoch},amd64"`
abbrev pub header_row : Text → ℕ → ℕ → ℕ → Text
header_row cluster_id total_nodes now_epoch age = join b',' (
    codes "H"
    ∷ cluster_id
    ∷ show total_nodes
    ∷ codes "1"
    ∷ codes "2"
    ∷ show_int (pos now_epoch -ℤ pos age)
    ∷ codes "0"
    ∷ show now_epoch
    ∷ codes "amd64"
    ∷ [])

-- `f"R,{b64_lookup}"`
abbrev pub lookup_row : Text → Text
lookup_row lookup_str = codes "R," ++ b64encode (utf8_encode lookup_str)

abbrev pub lookup_str : Text
lookup_str =
    codes "1=4.20.27,2=4.19.30,3=control-plane#master,4=worker#infra-odf,5=worker#application01,"
    ++ codes "6=worker#application02,7=worker#application03"

-- `random.choice(worker_roles)` for the node `i`, by a random number.
abbrev pub worker_role : (ℕ → ℕ) → ℕ → Text
worker_role random i = get_or (codes "5" ∷ codes "6" ∷ codes "7" ∷ []) (random i % 3) []

abbrev pub always : Text → ℕ → Text
always role i = role

unfoldable pub payload_lines : Text → ℕ → ℕ → (ℕ → ℕ) → List Text
payload_lines cluster_id total_nodes now_epoch random =
    header_row cluster_id total_nodes now_epoch 1000000
    ∷ (node_rows cluster_id (always (codes "3")) (codes "40") 1 3
        ++ (node_rows cluster_id (always (codes "4")) (codes "40") 4 6
            ++ (node_rows cluster_id (worker_role random) (codes "50") 10 (total_nodes - 9)
                ++ lookup_row lookup_str ∷ [])))

-- `"\n".join(payload_lines) + "\n"`
abbrev pub joined_lines : List Text → Text
joined_lines lines = join b'\n' lines ++ b'\n' ∷ []

-- The text with its signature: `"\n".join(lines) + "\n" + f"T,{hmac_signature}\n"`.
unfoldable pub signed_text : List Text → Text → Text
signed_text lines hmac_signature =
    joined_lines lines ++ (codes "T," ++ (hmac_signature ++ b'\n' ∷ []))

unfoldable pub signature : Crypto → Bytes → List Text → Text
signature c salt_bytes lines = c.hmac_hex salt_bytes (utf8_encode (joined_lines lines))

unfoldable pub full_payload_text : Crypto → Bytes → List Text → Text
full_payload_text c salt_bytes lines = signed_text lines (signature c salt_bytes lines)

unfoldable pub build_cluster_payload :
    Crypto → (Bytes → Bytes) → Text → ℕ → Bytes → ℕ → (ℕ → ℕ) → Bytes
build_cluster_payload c gzip cluster_id total_nodes salt_bytes now_epoch random = gzip (
    utf8_encode
      (full_payload_text c salt_bytes (payload_lines cluster_id total_nodes now_epoch random)))
