-- ===== src/Compliance/Report.antt =====
-- The report of `run_evaluation`: a row for each evaluated node, then for each of four groups the
-- grand total, the subscriptions that are available, and the gap between the two.
-- A row is the list of the cells that `csv.writer` is given.
pub mod Columns
pub mod Filled
pub mod Shape
use cluster_size_operator_fo.Prelude.{
  ℕ, ◌+◌, Bool, ◌&&◌, Option, none, some, List, [], ◌∷◌, ◌++◌, ◌==◌, list_eq, nat_eq, if◌then◌else◌,
}
use cluster_size_operator_fo.Prelude.Int.{ℤ, pos, ◌-ℤ◌}
use cluster_size_operator_fo.Text.{Text, codes}
use cluster_size_operator_fo.Dict.{lookup}
use cluster_size_operator_fo.Lifecycle.{◌>>=◌}
use cluster_size_operator_fo.Subscriptions.{Subs}
use cluster_size_operator_fo.Compliance.Rows.{EvaluatedRow, s390x, amd64}
use cluster_size_operator_fo.Compliance.Groups.{
  Available, Gap, GrandTotal, Group, aggr_groups, available, filtered, gap, grand_total, in_group,
  premium, standard, sum,
}

-- `blank` is Python's `None`.
pub data Cell : Type 0 where
  txt : Text → Cell
  num : ℤ → Cell
  blank : Cell

abbrev pub count : ℕ → Cell
count n = num (pos n)

abbrev pub csv_header : List Cell
csv_header =
    txt (codes "CLUSTER_ID")
    ∷ txt (codes "PLATFORM")
    ∷ txt (codes "CLUSTER_VERSION")
    ∷ txt (codes "CLUSTER_INITIAL_VERSION")
    ∷ txt (codes "CLUSTER_NODE_COUNT")
    ∷ txt (codes "CLUSTER_INSTALLED_AT")
    ∷ txt (codes "SUPPORT")
    ∷ txt (codes "HOSTNAME")
    ∷ txt (codes "NODE_ROLES")
    ∷ txt (codes "NODE_ARCHITECTURE")
    ∷ txt (codes "LAST_UPDATE_RECEIVED")
    ∷ txt (codes "TOTAL_PHYSICAL_CPU_CORES")
    ∷ txt (codes "TOTAL_VIRTUAL_VCPUS")
    ∷ txt (codes "TOTAL_MEMORY")
    ∷ txt (codes "TOTAL_REQUIRED_SUB_FOR_PHYSICAL_CPU_CORES")
    ∷ txt (codes "TOTAL_REQUIRED_SUB_FOR_VIRTUAL_VCPUS")
    ∷ txt (codes "EUS_TERM1_REQUIRED_SUBS_PHYSICAL_CPU_CORES")
    ∷ txt (codes "EUS_TERM2_REQUIRED_SUBS_PHYSICAL_CPU_CORES")
    ∷ txt (codes "EUS_TERM3_REQUIRED_SUBS_PHYSICAL_CPU_CORES")
    ∷ txt (codes "EUS_TERM1_REQUIRED_SUBS_VIRTUAL_VCPUS")
    ∷ txt (codes "EUS_TERM2_REQUIRED_SUBS_VIRTUAL_VCPUS")
    ∷ txt (codes "EUS_TERM3_REQUIRED_SUBS_VIRTUAL_VCPUS")
    ∷ txt (codes "IS_GRAND_TOTAL")
    ∷ []

unfoldable pub node_cells : EvaluatedRow → List Cell
node_cells r =
    txt r.cluster_id
    ∷ txt r.platform
    ∷ txt r.cluster_version
    ∷ txt r.cluster_initial_version
    ∷ count r.cluster_node_count
    ∷ txt r.cluster_installed_at
    ∷ txt r.support
    ∷ txt r.hostname
    ∷ txt r.node_roles
    ∷ txt r.node_architecture
    ∷ txt r.last_update_received
    ∷ count r.total_physical_cpu_cores
    ∷ count r.total_virtual_vcpus
    ∷ txt r.total_memory
    ∷ count r.sub_phys
    ∷ count r.sub_virt
    ∷ count r.eus_t1_phys
    ∷ count r.eus_t2_phys
    ∷ count r.eus_t3_phys
    ∷ count r.eus_t1_virt
    ∷ count r.eus_t2_virt
    ∷ count r.eus_t3_virt
    ∷ count 0
    ∷ []

-- The eleven cells that the rows of a group begin with.
abbrev label_cells : Text → Group → List Cell → List Cell
label_cells label g cells =
    txt label
    ∷ blank
    ∷ blank
    ∷ blank
    ∷ blank
    ∷ blank
    ∷ txt g.supp
    ∷ blank
    ∷ blank
    ∷ txt g.arch
    ∷ blank
    ∷ cells

unfoldable pub total_cells : Group → GrandTotal → List Cell
total_cells g t = label_cells (g.arch ++ (codes " GRAND TOTAL LOAD - " ++ g.supp)) g (
    count t.cores
    ∷ count t.vcpus
    ∷ count 0
    ∷ count t.phys_sub
    ∷ count t.virt_sub
    ∷ count t.t1_p
    ∷ count t.t2_p
    ∷ count t.t3_p
    ∷ count t.t1_v
    ∷ count t.t2_v
    ∷ count t.t3_v
    ∷ count 1
    ∷ [])

unfoldable pub available_cells : Group → Available → List Cell
available_cells g a = label_cells (g.arch ++ (codes " SUBSCRIPTION AVAILABLE - " ++ g.supp)) g (
    blank
    ∷ blank
    ∷ blank
    ∷ num a.avail
    ∷ count 0
    ∷ num a.t1
    ∷ num a.t2
    ∷ num a.t3
    ∷ count 0
    ∷ count 0
    ∷ count 0
    ∷ count 2
    ∷ [])

unfoldable pub gap_cells : Group → Gap → List Cell
gap_cells g x = label_cells (codes "GAP " ++ (g.arch ++ (codes " SUBSCRIPTIONS - " ++ g.supp))) g (
    blank
    ∷ blank
    ∷ blank
    ∷ num x.phys
    ∷ count 0
    ∷ num x.t1
    ∷ num x.t2
    ∷ num x.t3
    ∷ count 0
    ∷ count 0
    ∷ count 0
    ∷ count 3
    ∷ [])

unfoldable pub node_part : List EvaluatedRow → List (List Cell)
node_part [] = []
node_part (r ∷ rows) = node_cells r ∷ node_part rows

unfoldable pub total_part : List EvaluatedRow → List Group → List (List Cell)
total_part rows [] = []
total_part rows (g ∷ gs) = total_cells g (grand_total rows g) ∷ total_part rows gs

unfoldable pub available_part : Subs → List Group → Option (List (List Cell))
available_part subs [] = some []
available_part subs (g ∷ gs) = do
  a ← available subs g
  rest ← available_part subs gs
  some (available_cells g a ∷ rest)

unfoldable pub gap_part : Subs → List EvaluatedRow → List Group → Option (List (List Cell))
gap_part subs rows [] = some []
gap_part subs rows (g ∷ gs) = do
  a ← available subs g
  rest ← gap_part subs rows gs
  some (gap_cells g (gap (grand_total rows g) a) ∷ rest)

-- The records that the file gets; `none` is a `KeyError`.
unfoldable pub report : Subs → List EvaluatedRow → Option (List (List Cell))
report subs rows = do
  avail ← available_part subs aggr_groups
  gaps ← gap_part subs rows aggr_groups
  some (csv_header ∷ (node_part rows ++ (total_part rows aggr_groups ++ (avail ++ gaps))))
