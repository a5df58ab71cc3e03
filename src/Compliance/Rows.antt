-- ===== src/Compliance/Rows.antt =====
-- The loop of `run_evaluation` that evaluates each node of each cluster: which nodes count, their cores
-- or vCPUs, and the subscriptions that they need, now and in each EUS term.
-- `math.ceil(n / 2)` goes through a float in the source; it is exact for every n below 2^53.
pub mod Counts
pub mod Nodes
pub mod Clusters
use cluster_size_operator_fo.Prelude.{
  ℕ, ◌+◌, ◌-◌, ◌*◌, ◌/◌, ◌^◌, leb, Bool, true, false, ◌&&◌, ◌||◌, Option, none, some, List, [], ◌∷◌,
  ◌++◌, ltb, ◌==◌, list_eq, nat_eq, if◌then◌else◌,
}
use cluster_size_operator_fo.Text.{Text, codes, split, lower, has_infix}
use cluster_size_operator_fo.Text.Order.{sorted}
use cluster_size_operator_fo.Dates.{Date}
use cluster_size_operator_fo.Dict.{keys, lookup, or_else}
use cluster_size_operator_fo.Lifecycle.{Lifecycle, evaluate_term, ◌>>=◌}
use cluster_size_operator_fo.Compliance.{Header, Node, Version, Latest}

-- An item of `evaluated_rows`; its `is_grand_total` is always 0.
pub record EvaluatedRow : Type 0 where
  pub cluster_id : Text
  pub platform : Text
  pub cluster_version : Text
  pub cluster_initial_version : Text
  pub cluster_node_count : ℕ
  pub cluster_installed_at : Text
  pub support : Text
  pub hostname : Text
  pub node_roles : Text
  pub node_architecture : Text
  pub last_update_received : Text
  pub total_physical_cpu_cores : ℕ
  pub total_virtual_vcpus : ℕ
  pub total_memory : Text
  pub sub_phys : ℕ
  pub sub_virt : ℕ
  pub eus_t1_phys : ℕ
  pub eus_t2_phys : ℕ
  pub eus_t3_phys : ℕ
  pub eus_t1_virt : ℕ
  pub eus_t2_virt : ℕ
  pub eus_t3_virt : ℕ

-- The cluster's header with the versions that an `R` record gave.
unfoldable pub with_versions : Option Version → Header → Header
with_versions none h = h
with_versions (some v) h = record h {
  cluster_version = v.current;
  cluster_initial_version = v.initial;
}

abbrev first_two : List Text → Text
first_two (a ∷ b ∷ rest) = a ++ b'.' ∷ b
first_two _ = codes "4.20"

unfoldable pub major_minor : Text → Text
major_minor version = first_two (split b'.' version)

-- Control-plane and infra nodes are left out of clusters of more than three nodes.
unfoldable pub is_excluded : ℕ → Node → Bool
is_excluded node_count node =
    ltb 3 node_count
    && (has_infix (codes "master") (lower node.roles)
        || has_infix (codes "control-plane") (lower node.roles)
        || has_infix (codes "infra") (lower node.roles))

abbrev pub s390x : Text
s390x = codes "s390x"

abbrev pub amd64 : Text
amd64 = codes "AMD64"

unfoldable pub is_s390x : Node → Bool
is_s390x node = has_infix (codes "S390X") node.architecture

unfoldable pub arch_group : Node → Text
arch_group node = if is_s390x node then s390x else amd64

unfoldable pub is_baremetal : Header → Bool
is_baremetal h = lower h.platform == codes "baremetal"

-- What a node counts for: its cores and vCPUs, and the subscriptions for them.
pub record Load : Type 0 where
  pub total_cores : ℕ
  pub total_vcpus : ℕ
  pub sub_physical : ℕ
  pub sub_virtual : ℕ

unfoldable pub total_cores : Bool → Bool → ℕ → ℕ
total_cores s390 baremetal cpu_raw = if s390 then cpu_raw else if baremetal then cpu_raw else 0

unfoldable pub total_vcpus : Bool → Bool → ℕ → ℕ
total_vcpus s390 baremetal cpu_raw = if s390 then 0 else if baremetal then 0 else cpu_raw

unfoldable pub node_load : Bool → Bool → ℕ → Load
node_load s390 baremetal cpu_raw =
    let cores = total_cores s390 baremetal cpu_raw in
    let vcpus = total_vcpus s390 baremetal cpu_raw in
    record {
      total_cores = cores;
      total_vcpus = vcpus;
      sub_physical = if s390 then cpu_raw else if baremetal then (cores + 1) / 2 else 0;
      sub_virtual = if s390 then 0 else if baremetal then 0 else (vcpus + 3) / 4;
    }

-- The lifecycle table and the range of dates of a run.
pub record Terms : Type 0 where
  pub lifecycle : Lifecycle
  pub r_start : Date
  pub r_end : Date

abbrev pub active : Terms → Text → ℕ → Bool
active t release n = evaluate_term t.lifecycle release n t.r_start t.r_end

abbrev pub while_active : Bool → ℕ → ℕ
while_active is_active n = if is_active then n else 0

unfoldable pub make_row : Terms → Header → Node → EvaluatedRow
make_row t h node =
    let load = node_load (is_s390x node) (is_baremetal h) node.cpu_raw in
    let release = major_minor h.cluster_version in
    record {
      cluster_id = h.cluster_id;
      platform = h.platform;
      cluster_version = h.cluster_version;
      cluster_initial_version = h.cluster_initial_version;
      cluster_node_count = h.cluster_node_count;
      cluster_installed_at = h.cluster_installed_at;
      support = h.support;
      hostname = node.hostname;
      node_roles = node.roles;
      node_architecture = arch_group node;
      last_update_received = h.last_update_received;
      total_physical_cpu_cores = load.total_cores;
      total_virtual_vcpus = load.total_vcpus;
      total_memory = node.memory;
      sub_phys = load.sub_physical;
      sub_virt = load.sub_virtual;
      eus_t1_phys = while_active (active t release 1) load.sub_physical;
      eus_t2_phys = while_active (active t release 2) load.sub_physical;
      eus_t3_phys = while_active (active t release 3) load.sub_physical;
      eus_t1_virt = while_active (active t release 1) load.sub_virtual;
      eus_t2_virt = while_active (active t release 2) load.sub_virtual;
      eus_t3_virt = while_active (active t release 3) load.sub_virtual;
    }

unfoldable pub node_rows : Terms → Header → List Node → List EvaluatedRow
node_rows t h [] = []
node_rows t h (node ∷ nodes) =
    let rest = node_rows t h nodes in
    if is_excluded h.cluster_node_count node then rest else make_row t h node ∷ rest

-- The least number that rounds to no finite float. A quotient of integers from there on raises an
-- `OverflowError`.
unfoldable pub float_limit : ℕ
float_limit = 2 ^ 1024 - 2 ^ 970

-- Whether `math.ceil(n / 2)` or `math.ceil(n / 4)` raises for a node.
unfoldable pub load_overflows : Bool → Bool → ℕ → Bool
load_overflows s390 baremetal cpu_raw =
    if s390
    then false
    else if baremetal
    then leb (2 * float_limit) cpu_raw
    else leb (4 * float_limit) cpu_raw

unfoldable pub any_overflows : Header → List Node → Bool
any_overflows h [] = false
any_overflows h (node ∷ nodes) =
    let rest = any_overflows h nodes in
    if is_excluded h.cluster_node_count node
    then rest
    else load_overflows (is_s390x node) (is_baremetal h) node.cpu_raw || rest

unfoldable pub loop_nodes : Terms → Header → List Node → Option (List EvaluatedRow)
loop_nodes t h nodes = if any_overflows h nodes then none else some (node_rows t h nodes)

-- The body of the loop over the clusters; `none` is an exception, a `KeyError` or the `OverflowError`.
unfoldable pub cluster_rows : Terms → Latest → Text → Option (List EvaluatedRow)
cluster_rows t st id = do
  h ← lookup id st.headers
  loop_nodes t (with_versions (lookup id st.versions) h) (or_else (lookup id st.nodes) [])

unfoldable pub rows_of : Terms → Latest → List Text → Option (List EvaluatedRow)
rows_of t st [] = some []
rows_of t st (id ∷ ids) = do
  rows ← cluster_rows t st id
  rest ← rows_of t st ids
  some (rows ++ rest)

unfoldable pub evaluate_rows : Terms → Latest → Option (List EvaluatedRow)
evaluate_rows t st = rows_of t st (sorted (keys st.headers))
