-- ===== src/Subscriptions.antt =====
-- `load_subscriptions` of telemetry_receiver/evaluate_compliance.py: the customer's subscription
-- counts, a dictionary with nine fixed keys, filled from the lines `key=value` of a file.
pub mod Laws
use cluster_size_operator_fo.Prelude.{
  Bool, true, false, ◌||◌, not, Option, none, some, List, [], ◌∷◌, list_eq, nat_eq, if◌then◌else◌,
}
use cluster_size_operator_fo.Prelude.Int.{ℤ, pos}
use cluster_size_operator_fo.Text.{Text, codes, strip, split_once, starts_with, is_nil, read_lines}
use cluster_size_operator_fo.Text.Number.{int_of}
use cluster_size_operator_fo.Dict.{Dict, lookup, insert, has_key}

abbrev pub Subs : Type 0
Subs = Dict Text ℤ

abbrev pub initial_subs : Subs
initial_subs =
    (codes "premium_s390x_subscriptions", pos 0)
    ∷ (codes "standard_s390x_subscriptions", pos 0)
    ∷ (codes "premium_ocp_subscriptions", pos 0)
    ∷ (codes "standard_ocp_subscriptions", pos 0)
    ∷ (codes "standard_ocp_term_1", pos 0)
    ∷ (codes "standard_ocp_term_2", pos 0)
    ∷ (codes "standard_ocp_term_3", pos 0)
    ∷ (codes "premium_ocp_term_2", pos 0)
    ∷ (codes "premium_ocp_term_3", pos 0)
    ∷ []

-- `if k in subs: try: subs[k] = int(v.strip()) except ValueError: pass`
unfoldable pub assign : Text → Option ℤ → Subs → Subs
assign k none subs = subs
assign k (some n) subs = if has_key k subs then insert k n subs else subs

-- The key and the value of a line that is no comment.
unfoldable pub assignment : Text → Option (Text × Text)
assignment line = if is_nil line || starts_with (codes "#") line then none else split_once b'=' line

abbrev perform : Option (Text × Text) → Subs → Subs
perform none subs = subs
perform (some (k, v)) subs = assign (strip k) (int_of (strip v)) subs

-- The loop's body.
unfoldable pub load_line : Subs → Text → Subs
load_line subs raw = perform (assignment (strip raw)) subs

unfoldable pub load_lines : List Text → Subs → Subs
load_lines [] subs = subs
load_lines (line ∷ lines) subs = load_lines lines (load_line subs line)

-- `none` is a path that is empty or names no file.
unfoldable pub load_subscriptions : Option Text → Subs
load_subscriptions none = initial_subs
load_subscriptions (some file) = load_lines (read_lines file) initial_subs
