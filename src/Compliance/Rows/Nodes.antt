-- ===== src/Compliance/Rows/Nodes.antt =====
-- The rows of the nodes of one cluster.
use cluster_size_operator_fo.Prelude.{
  ℕ, ◌<◌, ◌^◌, ◌≡◌, ◌⊎◌, refl, Bool, true, false, arith, if◌then◌else◌, some, List, [], ◌∷◌, All,
  list_eq, nat_eq,
}
use cluster_size_operator_fo.Text.{Text, codes, lower, has_infix}
use cluster_size_operator_fo.Compliance.{Header, Node}
use cluster_size_operator_fo.Compliance.Rows.{
  EvaluatedRow, Terms, active, make_row, node_rows, loop_nodes, is_excluded, is_s390x, is_baremetal,
  arch_group, major_minor, float_limit, load_overflows, any_overflows,
}
use cluster_size_operator_fo.Compliance.Rows.Counts.{LoadRule, make_row-LoadRule}

abbrev pub HasRole : Text → Node → Type 0
HasRole word node = has_infix word (lower node.roles) ≡ true

-- The node is one of the control plane or of the infrastructure.
abbrev pub IsReserved : Node → Type 0
IsReserved node =
    HasRole (codes "master") node
    ⊎ (HasRole (codes "control-plane") node ⊎ HasRole (codes "infra") node)

abbrev pub IsLeftOut : ℕ → Node → Type 0
IsLeftOut node_count node = (3 < node_count) × IsReserved node

abbrev ArchRule : Bool → Text → Type 0
ArchRule true arch = arch ≡ codes "s390x"
ArchRule false arch = arch ≡ codes "AMD64"

-- A column for an EUS term: the subscriptions while the term is active, and else 0.
abbrev TermRule : Terms → Header → ℕ → ℕ → ℕ → Type 0
TermRule t h n subs column =
    column ≡ (if active t (major_minor h.cluster_version) n then subs else 0)

-- `r` is the row of the node of the cluster with the header `h`.
pub record IsRowOf (t : Terms) (h : Header) (node : Node) (r : EvaluatedRow) : Type 0 where
  pub cluster_id : r.cluster_id ≡ h.cluster_id
  pub platform : r.platform ≡ h.platform
  pub cluster_version : r.cluster_version ≡ h.cluster_version
  pub initial_version : r.cluster_initial_version ≡ h.cluster_initial_version
  pub node_count : r.cluster_node_count ≡ h.cluster_node_count
  pub installed_at : r.cluster_installed_at ≡ h.cluster_installed_at
  pub support : r.support ≡ h.support
  pub last_update : r.last_update_received ≡ h.last_update_received
  pub hostname : r.hostname ≡ node.hostname
  pub roles : r.node_roles ≡ node.roles
  pub memory : r.total_memory ≡ node.memory
  pub architecture : ArchRule (has_infix (codes "S390X") node.architecture) r.node_architecture
  pub load : LoadRule (is_s390x node) (is_baremetal h) node.cpu_raw r
  pub t1_phys : TermRule t h 1 r.sub_phys r.eus_t1_phys
  pub t2_phys : TermRule t h 2 r.sub_phys r.eus_t2_phys
  pub t3_phys : TermRule t h 3 r.sub_phys r.eus_t3_phys
  pub t1_virt : TermRule t h 1 r.sub_virt r.eus_t1_virt
  pub t2_virt : TermRule t h 2 r.sub_virt r.eus_t2_virt
  pub t3_virt : TermRule t h 3 r.sub_virt r.eus_t3_virt

-- The rows of the nodes of a cluster: one for each node, in their order, but none for a node of the
-- control plane or of the infrastructure of a cluster of more than three nodes.
pub data NodeRows (t : Terms) (h : Header) : List Node → List EvaluatedRow → Type 0 where
  no_more : NodeRows t h [] []
  left_out :
      {node : Node} {nodes : List Node} {rows : List EvaluatedRow}
      → IsLeftOut h.cluster_node_count node
      → NodeRows t h nodes rows
      → NodeRows t h (node ∷ nodes) rows
  counted :
      {node : Node} {nodes : List Node} {r : EvaluatedRow} {rows : List EvaluatedRow}
      → ¬ IsLeftOut h.cluster_node_count node
      → IsRowOf t h node r
      → NodeRows t h nodes rows
      → NodeRows t h (node ∷ nodes) (r ∷ rows)

arch_group-ArchRule :
    (node : Node) → ArchRule (has_infix (codes "S390X") node.architecture) (arch_group node)
unfolding arch_group is_s390x
arch_group-ArchRule node = ground arith

make_row-IsRowOf : (t : Terms) (h : Header) (node : Node) → IsRowOf t h node (make_row t h node)
unfolding make_row
make_row-IsRowOf t h node = record {
  cluster_id = refl;
  platform = refl;
  cluster_version = refl;
  initial_version = refl;
  node_count = refl;
  installed_at = refl;
  support = refl;
  last_update = refl;
  hostname = refl;
  roles = refl;
  memory = refl;
  architecture = arch_group-ArchRule node;
  load = make_row-LoadRule t h node;
  t1_phys = refl;
  t2_phys = refl;
  t3_phys = refl;
  t1_virt = refl;
  t2_virt = refl;
  t3_virt = refl;
}

is_excluded-IsLeftOut :
    (node_count : ℕ) (node : Node) → is_excluded node_count node ≡ true → IsLeftOut node_count node
unfolding is_excluded
is_excluded-IsLeftOut node_count node h = ground arith

is_excluded_intro :
    (node_count : ℕ) (node : Node) → IsLeftOut node_count node → is_excluded node_count node ≡ true
unfolding is_excluded
is_excluded_intro node_count node h = ground arith

module _ (t : Terms) (h : Header) where
  add_node :
      (b : Bool) (node : Node) (nodes : List Node) (rows : List EvaluatedRow)
      → is_excluded h.cluster_node_count node ≡ b
      → NodeRows t h nodes rows
      → NodeRows t h (node ∷ nodes) (if b then rows else make_row t h node ∷ rows)
  add_node true node nodes rows e w = left_out (is_excluded-IsLeftOut h.cluster_node_count node e) w
  add_node false node nodes rows e w =
      counted (λ k. cc (e, is_excluded_intro h.cluster_node_count node k))
        (make_row-IsRowOf t h node) w

  node_rows-NodeRows : (nodes : List Node) → NodeRows t h nodes (node_rows t h nodes)
  unfolding node_rows
  node_rows-NodeRows [] = no_more
  node_rows-NodeRows (node ∷ nodes) =
      add_node (is_excluded h.cluster_node_count node) node nodes _ refl (node_rows-NodeRows nodes)

-- The CPUs of the node are so few that their quotients are exact as floats.
abbrev pub IsSmall : Node → Type 0
IsSmall node = node.cpu_raw < 2 ^ 53

below_float_limit : (n : ℕ) → n < 2 ^ 53 → n < float_limit
unfolding float_limit
below_float_limit n h = omega arith

load_overflows_small :
    (s390 baremetal : Bool) (n : ℕ) → n < float_limit → load_overflows s390 baremetal n ≡ false
unfolding load_overflows
load_overflows_small s390 baremetal n h = ground arith

any_overflows-IsSmall :
    (h : Header) (nodes : List Node) → All IsSmall nodes → any_overflows h nodes ≡ false
unfolding any_overflows
any_overflows-IsSmall h [] f = refl
any_overflows-IsSmall h (node ∷ nodes) (f, fs) = ground (
  arith,
  any_overflows-IsSmall h nodes fs,
  load_overflows_small (is_s390x node) (is_baremetal h) node.cpu_raw
      (below_float_limit node.cpu_raw f),
)

pub loop_nodes-NodeRows :
    (t : Terms) (h : Header) (nodes : List Node)
    → All IsSmall nodes
    → (rows : List EvaluatedRow) × (loop_nodes t h nodes ≡ some rows) × NodeRows t h nodes rows
unfolding loop_nodes
loop_nodes-NodeRows t h nodes f =
    (node_rows t h nodes, rw (any_overflows-IsSmall h nodes f) refl, node_rows-NodeRows t h nodes)
