-- ===== src/Compliance.antt =====
-- telemetry_receiver/evaluate_compliance.py, `run_evaluation`: the data that its parts share.
pub mod Ingest
pub mod Rows
pub mod Groups
pub mod Report
pub mod Run
use cluster_size_operator_fo.Prelude.{ℕ, Bool, ◌||◌, if◌then◌else◌, ◌==◌, list_eq, nat_eq, List}
use cluster_size_operator_fo.Text.{Text, codes, strip, lower, is_nil}
use cluster_size_operator_fo.Dict.{Dict}

abbrev pub not_available : Text
not_available = codes "NotAvailable"

-- `clean_val`
unfoldable pub clean_val : Text → Text
clean_val val =
    if is_nil val || is_nil (strip val) || lower (strip val) == codes "none"
    then not_available
    else strip val

-- The dictionary `latest_headers[cluster_id]`
pub record Header : Type 0 where
  pub cluster_id : Text
  pub platform : Text
  pub cluster_version : Text
  pub cluster_initial_version : Text
  pub cluster_node_count : ℕ
  pub cluster_installed_at : Text
  pub support : Text
  pub last_update_received : Text

-- An item of `latest_nodes[cluster_id]`
pub record Node : Type 0 where
  pub hostname : Text
  pub roles : Text
  pub architecture : Text
  pub cpu_raw : ℕ
  pub memory : Text

-- The dictionary `cluster_versions[cluster_id]`
pub record Version : Type 0 where
  pub current : Text
  pub initial : Text

-- The three dictionaries that the input is read into.
pub record Latest : Type 0 where
  pub headers : Dict Text Header
  pub nodes : Dict Text (List Node)
  pub versions : Dict Text Version
