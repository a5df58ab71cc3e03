-- ===== src/Sender/Salt.antt =====
-- `load_verification_salt` of telemetry_receiver/load_integrity_tets/telemetry_traffic_emulator.py and
-- of telemetry_attack_simulator.py beside it.
pub mod Agree
use cluster_size_operator_fo.Prelude.{
  ℕ, Bool, ◌&&◌, ◌||◌, Option, none, some, List, [], ◌∷◌, leb, ◌==◌, nat_eq, if◌then◌else◌,
}
use cluster_size_operator_fo.Text.{codes}
use cluster_size_operator_fo.Base64.{Bytes}
use cluster_size_operator_fo.Receiver.Salt.{SaltFiles}

-- White space of `bytes.strip`
abbrev pub is_white : ℕ → Bool
is_white b = (leb 9 b && leb b 13) || b == 32

unfoldable pub lstrip_bytes : Bytes → Bytes
lstrip_bytes [] = []
lstrip_bytes (b ∷ s) = let rest = lstrip_bytes s in if is_white b then rest else b ∷ s

abbrev pub keep_byte : ℕ → Bytes → Bytes
keep_byte b [] = if is_white b then [] else b ∷ []
keep_byte b (c ∷ s) = b ∷ c ∷ s

unfoldable pub rstrip_bytes : Bytes → Bytes
rstrip_bytes [] = []
rstrip_bytes (b ∷ s) = keep_byte b (rstrip_bytes s)

unfoldable pub strip_bytes : Bytes → Bytes
strip_bytes s = rstrip_bytes (lstrip_bytes s)

abbrev pub default_salt : Bytes
default_salt = codes "MySecretSaltValue"

abbrev pub strip_output : Option Bytes → Bytes
strip_output none = default_salt
strip_output (some s) = strip_bytes s

unfoldable pub load_verification_salt : SaltFiles → Bytes
load_verification_salt e =
    if e.salt_file
    then if e.key_file then strip_output e.decrypted else default_salt
    else default_salt
