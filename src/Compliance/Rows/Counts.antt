-- ===== src/Compliance/Rows/Counts.antt =====
-- What a node counts for.
use cluster_size_operator_fo.Prelude.{
  ℕ, ◌+◌, ◌*◌, ◌≤◌, ◌<◌, ◌≡◌, refl, Bool, true, false, arith, list_eq, nat_eq,
}
use cluster_size_operator_fo.Compliance.{Header, Node}
use cluster_size_operator_fo.Compliance.Rows.{
  EvaluatedRow, Terms, node_load, total_cores, total_vcpus, make_row, is_s390x, is_baremetal,
}

-- The number of subscriptions is the least that covers the load: `per` units to a subscription.
abbrev pub Covers : ℕ → ℕ → ℕ → Type 0
Covers per subs load = (load ≤ per * subs) × (per * subs < load + per)

-- The rule for a node with `cpu` CPUs, by architecture and platform.
abbrev pub LoadRule : Bool → Bool → ℕ → EvaluatedRow → Type 0
LoadRule true baremetal cpu r =
    (r.total_physical_cpu_cores ≡ cpu)
    × (r.total_virtual_vcpus ≡ 0)
    × (r.sub_phys ≡ cpu)
    × (r.sub_virt ≡ 0)
LoadRule false true cpu r =
    (r.total_physical_cpu_cores ≡ cpu)
    × (r.total_virtual_vcpus ≡ 0)
    × Covers 2 r.sub_phys cpu
    × (r.sub_virt ≡ 0)
LoadRule false false cpu r =
    (r.total_physical_cpu_cores ≡ 0)
    × (r.total_virtual_vcpus ≡ cpu)
    × (r.sub_phys ≡ 0)
    × Covers 4 r.sub_virt cpu

load_rule :
    (t : Terms) (h : Header) (node : Node) (s390 baremetal : Bool)
    → is_s390x node ≡ s390
    → is_baremetal h ≡ baremetal
    → LoadRule s390 baremetal node.cpu_raw (make_row t h node)
unfolding make_row node_load total_cores total_vcpus
load_rule t h node true b e f = ground arith
load_rule t h node false true e f = ground arith
load_rule t h node false false e f = ground arith

-- On s390x each CPU of a node is a core that needs a subscription; on other bare metal the row has the
-- least number of subscriptions that covers the cores, two to each; on any other platform the least
-- number that covers the vCPUs, four to each. What does not apply is 0.
pub make_row-LoadRule :
    (t : Terms) (h : Header) (node : Node)
    → LoadRule (is_s390x node) (is_baremetal h) node.cpu_raw (make_row t h node)
make_row-LoadRule t h node = load_rule t h node (is_s390x node) (is_baremetal h) refl refl
