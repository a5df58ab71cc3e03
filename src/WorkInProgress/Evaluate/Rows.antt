-- ===== src/WorkInProgress/Evaluate/Rows.antt =====
-- The loop over the clusters and their nodes in the earlier variant of `run_evaluation`. Which nodes
-- count, and what they need, is as in the script that replaced it.
use cluster_size_operator_fo.Prelude.{
  Option, none, some, List, [], ◌∷◌, ◌++◌, list_eq, nat_eq, if◌then◌else◌,
}
use cluster_size_operator_fo.Text.{Text, split}
use cluster_size_operator_fo.Text.Order.{sorted}
use cluster_size_operator_fo.Dict.{keys, lookup, or_else}
use cluster_size_operator_fo.Lifecycle.{◌>>=◌}
use cluster_size_operator_fo.Compliance.{Header, Node, Latest, not_available}
use cluster_size_operator_fo.Compliance.Rows.{
  EvaluatedRow, Terms, is_excluded, any_overflows, is_s390x, is_baremetal, arch_group, node_load,
  active, while_active,
}

abbrev first_two : List Text → Text
first_two (a ∷ b ∷ rest) = a ++ b'.' ∷ b
first_two _ = not_available

unfoldable pub major_minor : Text → Text
major_minor version = first_two (split b'.' version)

unfoldable pub make_row : Terms → Header → Node → EvaluatedRow
make_row t h node =
    let load = node_load (is_s390x node) (is_baremetal h) node.cpu_raw in
    let release = major_minor h.cluster_version in
    record {
      cluster_id = h.cluster_id;
      platform = h.platform;
      cluster_version = h.cluster_version;
      cluster_initial_version = h.cluster_initial_version;
      cluster_node_count = h.cluster_node_count;
      cluster_installed_at = h.cluster_installed_at;
      support = h.support;
      hostname = node.hostname;
      node_roles = node.roles;
      node_architecture = arch_group node;
      last_update_received = h.last_update_received;
      total_physical_cpu_cores = load.total_cores;
      total_virtual_vcpus = load.total_vcpus;
      total_memory = node.memory;
      sub_phys = load.sub_physical;
      sub_virt = load.sub_virtual;
      eus_t1_phys = while_active (active t release 1) load.sub_physical;
      eus_t2_phys = while_active (active t release 2) load.sub_physical;
      eus_t3_phys = while_active (active t release 3) load.sub_physical;
      eus_t1_virt = while_active (active t release 1) load.sub_virtual;
      eus_t2_virt = while_active (active t release 2) load.sub_virtual;
      eus_t3_virt = while_active (active t release 3) load.sub_virtual;
    }

unfoldable pub node_rows : Terms → Header → List Node → List EvaluatedRow
node_rows t h [] = []
node_rows t h (node ∷ nodes) =
    let rest = node_rows t h nodes in
    if is_excluded h.cluster_node_count node then rest else make_row t h node ∷ rest

unfoldable pub loop_nodes : Terms → Header → List Node → Option (List EvaluatedRow)
loop_nodes t h nodes = if any_overflows h nodes then none else some (node_rows t h nodes)

-- `none` is an exception, a `KeyError` or the `OverflowError`.
unfoldable pub rows_of : Terms → Latest → List Text → Option (List EvaluatedRow)
rows_of t st [] = some []
rows_of t st (id ∷ ids) = do
  h ← lookup id st.headers
  rows ← loop_nodes t h (or_else (lookup id st.nodes) [])
  rest ← rows_of t st ids
  some (rows ++ rest)

unfoldable pub evaluate_rows : Terms → Latest → Option (List EvaluatedRow)
evaluate_rows t st = rows_of t st (sorted (keys st.headers))
