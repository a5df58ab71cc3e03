-- ===== src/Receiver/Salt.antt =====
-- `load_encrypted_salt`, and what the start of the receiver makes of it. `openssl` runs in another
-- process: its output is a field of `SaltFiles`.
use cluster_size_operator_fo.Prelude.{Bool, Option, none, some, [], ◌∷◌, if◌then◌else◌}
use cluster_size_operator_fo.Base64.{Bytes}

-- Which of the two files exist, and what `openssl` decrypts; `none` where running it raises an exception.
pub record SaltFiles : Type 0 where
  pub salt_file : Bool
  pub key_file : Bool
  pub decrypted : Option Bytes

-- The result, or one of the exceptions.
pub data LoadedSalt : Type 0 where
  loaded : Bytes → LoadedSalt
  file_not_found openssl_failed empty_salt : LoadedSalt

abbrev from_output : Option Bytes → LoadedSalt
from_output none = openssl_failed
from_output (some []) = empty_salt
from_output (some (b ∷ s)) = loaded (b ∷ s)

unfoldable pub load_encrypted_salt : SaltFiles → LoadedSalt
load_encrypted_salt e =
    if e.salt_file
    then if e.key_file then from_output e.decrypted else file_not_found
    else file_not_found

-- `HMAC_SALT`; with `none` the receiver does not start.
abbrev pub hmac_salt : LoadedSalt → Option Bytes
hmac_salt (loaded s) = some s
hmac_salt file_not_found = none
hmac_salt openssl_failed = none
hmac_salt empty_salt = none
