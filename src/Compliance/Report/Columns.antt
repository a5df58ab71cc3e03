-- ===== src/Compliance/Report/Columns.antt =====
-- What the columns of the report hold, by the names that the header gives them.
use cluster_size_operator_fo.Prelude.{
  ℕ, ◌+◌, ◌≡◌, ◌&&◌, Option, none, some, List, [], ◌∷◌, ◌++◌, ◌==◌, list_eq, nat_eq, length,
  if◌then◌else◌,
}
use cluster_size_operator_fo.Prelude.Int.{ℤ, pos, ◌-ℤ◌}
use cluster_size_operator_fo.Text.{Text, codes}
use cluster_size_operator_fo.Dict.{lookup, or_else}
use cluster_size_operator_fo.Subscriptions.{Subs}
use cluster_size_operator_fo.Compliance.Rows.{EvaluatedRow, amd64, s390x}
use cluster_size_operator_fo.Compliance.Groups.{Group, Available, standard, premium}
use cluster_size_operator_fo.Compliance.Report.{Cell, txt, num, blank, count, csv_header}

-- The cell in the column `name` of a record.
abbrev named : List Cell → Text → List Cell → Cell
named (txt k ∷ ks) name (c ∷ cs) = if k == name then c else named ks name cs
named _ name cs = blank

abbrev pub At : Text → List Cell → Cell → Type 0
At name cells cell = named csv_header name cells ≡ cell

abbrev pub IsWide : List Cell → Type 0
IsWide cells = length cells ≡ length csv_header

-- `f`, summed over the rows of a group.
abbrev pub summed : (EvaluatedRow → ℕ) → Group → List EvaluatedRow → ℕ
summed f g [] = 0
summed f g (r ∷ rows) =
    (if r.node_architecture == g.arch && r.support == g.supp then f r else 0) + summed f g rows

-- A group, and the keys of the subscriptions that are available for it, now and in each EUS term.
pub record Supply : Type 0 where
  pub group : Group
  pub all_key : Option Text
  pub t1_key : Option Text
  pub t2_key : Option Text
  pub t3_key : Option Text

abbrev pub supplies : List Supply
supplies =
    record {
      group = record { arch = amd64; supp = standard };
      all_key = some (codes "standard_ocp_subscriptions");
      t1_key = some (codes "standard_ocp_term_1");
      t2_key = some (codes "standard_ocp_term_2");
      t3_key = some (codes "standard_ocp_term_3");
    }
    ∷ record {
      group = record { arch = amd64; supp = premium };
      all_key = some (codes "premium_ocp_subscriptions");
      t1_key = none;
      t2_key = some (codes "premium_ocp_term_2");
      t3_key = some (codes "premium_ocp_term_3");
    }
    ∷ record {
      group = record { arch = s390x; supp = standard };
      all_key = some (codes "standard_s390x_subscriptions");
      t1_key = none;
      t2_key = none;
      t3_key = none;
    }
    ∷ record {
      group = record { arch = s390x; supp = premium };
      all_key = some (codes "premium_s390x_subscriptions");
      t1_key = none;
      t2_key = none;
      t3_key = none;
    }
    ∷ []

-- The number that the subscription file gives to a key.
abbrev pub amount : Subs → Option Text → ℤ
amount subs none = pos 0
amount subs (some k) = or_else (lookup k subs) (pos 0)

-- The record of an evaluated node.
pub record IsNodeRecord (r : EvaluatedRow) (cells : List Cell) : Type 0 where
  pub wide : IsWide cells
  pub cluster_id : At (codes "CLUSTER_ID") cells (txt r.cluster_id)
  pub platform : At (codes "PLATFORM") cells (txt r.platform)
  pub cluster_version : At (codes "CLUSTER_VERSION") cells (txt r.cluster_version)
  pub cluster_initial_version :
      At (codes "CLUSTER_INITIAL_VERSION") cells (txt r.cluster_initial_version)
  pub cluster_node_count : At (codes "CLUSTER_NODE_COUNT") cells (count r.cluster_node_count)
  pub cluster_installed_at : At (codes "CLUSTER_INSTALLED_AT") cells (txt r.cluster_installed_at)
  pub support : At (codes "SUPPORT") cells (txt r.support)
  pub hostname : At (codes "HOSTNAME") cells (txt r.hostname)
  pub node_roles : At (codes "NODE_ROLES") cells (txt r.node_roles)
  pub node_architecture : At (codes "NODE_ARCHITECTURE") cells (txt r.node_architecture)
  pub last_update_received : At (codes "LAST_UPDATE_RECEIVED") cells (txt r.last_update_received)
  pub total_memory : At (codes "TOTAL_MEMORY") cells (txt r.total_memory)
  pub total_physical_cpu_cores :
      At (codes "TOTAL_PHYSICAL_CPU_CORES") cells (count r.total_physical_cpu_cores)
  pub total_virtual_vcpus : At (codes "TOTAL_VIRTUAL_VCPUS") cells (count r.total_virtual_vcpus)
  pub total_required_sub_for_physical_cpu_cores :
      At (codes "TOTAL_REQUIRED_SUB_FOR_PHYSICAL_CPU_CORES") cells (count r.sub_phys)
  pub total_required_sub_for_virtual_vcpus :
      At (codes "TOTAL_REQUIRED_SUB_FOR_VIRTUAL_VCPUS") cells (count r.sub_virt)
  pub eus_term1_required_subs_physical_cpu_cores :
      At (codes "EUS_TERM1_REQUIRED_SUBS_PHYSICAL_CPU_CORES") cells (count r.eus_t1_phys)
  pub eus_term2_required_subs_physical_cpu_cores :
      At (codes "EUS_TERM2_REQUIRED_SUBS_PHYSICAL_CPU_CORES") cells (count r.eus_t2_phys)
  pub eus_term3_required_subs_physical_cpu_cores :
      At (codes "EUS_TERM3_REQUIRED_SUBS_PHYSICAL_CPU_CORES") cells (count r.eus_t3_phys)
  pub eus_term1_required_subs_virtual_vcpus :
      At (codes "EUS_TERM1_REQUIRED_SUBS_VIRTUAL_VCPUS") cells (count r.eus_t1_virt)
  pub eus_term2_required_subs_virtual_vcpus :
      At (codes "EUS_TERM2_REQUIRED_SUBS_VIRTUAL_VCPUS") cells (count r.eus_t2_virt)
  pub eus_term3_required_subs_virtual_vcpus :
      At (codes "EUS_TERM3_REQUIRED_SUBS_VIRTUAL_VCPUS") cells (count r.eus_t3_virt)
  pub is_grand_total : At (codes "IS_GRAND_TOTAL") cells (count 0)

-- The grand total of a group.
pub record IsTotalRecord (rows : List EvaluatedRow) (g : Group) (cells : List Cell) : Type 0 where
  pub wide : IsWide cells
  pub cluster_id :
      At (codes "CLUSTER_ID") cells (txt (g.arch ++ (codes " GRAND TOTAL LOAD - " ++ g.supp)))
  pub support : At (codes "SUPPORT") cells (txt g.supp)
  pub node_architecture : At (codes "NODE_ARCHITECTURE") cells (txt g.arch)
  pub total_physical_cpu_cores :
      At
        (codes "TOTAL_PHYSICAL_CPU_CORES")
        cells
        (count (summed (λ r. r.total_physical_cpu_cores) g rows))
  pub total_virtual_vcpus :
      At (codes "TOTAL_VIRTUAL_VCPUS") cells (count (summed (λ r. r.total_virtual_vcpus) g rows))
  pub total_required_sub_for_physical_cpu_cores :
      At
        (codes "TOTAL_REQUIRED_SUB_FOR_PHYSICAL_CPU_CORES")
        cells
        (count (summed (λ r. r.sub_phys) g rows))
  pub total_required_sub_for_virtual_vcpus :
      At
        (codes "TOTAL_REQUIRED_SUB_FOR_VIRTUAL_VCPUS")
        cells
        (count (summed (λ r. r.sub_virt) g rows))
  pub eus_term1_required_subs_physical_cpu_cores :
      At
        (codes "EUS_TERM1_REQUIRED_SUBS_PHYSICAL_CPU_CORES")
        cells
        (count (summed (λ r. r.eus_t1_phys) g rows))
  pub eus_term2_required_subs_physical_cpu_cores :
      At
        (codes "EUS_TERM2_REQUIRED_SUBS_PHYSICAL_CPU_CORES")
        cells
        (count (summed (λ r. r.eus_t2_phys) g rows))
  pub eus_term3_required_subs_physical_cpu_cores :
      At
        (codes "EUS_TERM3_REQUIRED_SUBS_PHYSICAL_CPU_CORES")
        cells
        (count (summed (λ r. r.eus_t3_phys) g rows))
  pub eus_term1_required_subs_virtual_vcpus :
      At
        (codes "EUS_TERM1_REQUIRED_SUBS_VIRTUAL_VCPUS")
        cells
        (count (summed (λ r. r.eus_t1_virt) g rows))
  pub eus_term2_required_subs_virtual_vcpus :
      At
        (codes "EUS_TERM2_REQUIRED_SUBS_VIRTUAL_VCPUS")
        cells
        (count (summed (λ r. r.eus_t2_virt) g rows))
  pub eus_term3_required_subs_virtual_vcpus :
      At
        (codes "EUS_TERM3_REQUIRED_SUBS_VIRTUAL_VCPUS")
        cells
        (count (summed (λ r. r.eus_t3_virt) g rows))
  pub is_grand_total : At (codes "IS_GRAND_TOTAL") cells (count 1)

-- The subscriptions that are available for a group.
pub record IsAvailableRecord (subs : Subs) (s : Supply) (cells : List Cell) : Type 0 where
  pub wide : IsWide cells
  pub cluster_id :
      At
        (codes "CLUSTER_ID")
        cells
        (txt (s.group.arch ++ (codes " SUBSCRIPTION AVAILABLE - " ++ s.group.supp)))
  pub support : At (codes "SUPPORT") cells (txt s.group.supp)
  pub node_architecture : At (codes "NODE_ARCHITECTURE") cells (txt s.group.arch)
  pub total_required_sub_for_physical_cpu_cores :
      At (codes "TOTAL_REQUIRED_SUB_FOR_PHYSICAL_CPU_CORES") cells (num (amount subs s.all_key))
  pub eus_term1_required_subs_physical_cpu_cores :
      At (codes "EUS_TERM1_REQUIRED_SUBS_PHYSICAL_CPU_CORES") cells (num (amount subs s.t1_key))
  pub eus_term2_required_subs_physical_cpu_cores :
      At (codes "EUS_TERM2_REQUIRED_SUBS_PHYSICAL_CPU_CORES") cells (num (amount subs s.t2_key))
  pub eus_term3_required_subs_physical_cpu_cores :
      At (codes "EUS_TERM3_REQUIRED_SUBS_PHYSICAL_CPU_CORES") cells (num (amount subs s.t3_key))
  pub is_grand_total : At (codes "IS_GRAND_TOTAL") cells (count 2)

-- What a group needs, less what is available for it.
pub record IsGapRecord (subs : Subs) (rows : List EvaluatedRow) (s : Supply) (cells : List Cell)
    : Type 0 where
  pub wide : IsWide cells
  pub cluster_id :
      At
        (codes "CLUSTER_ID")
        cells
        (txt (codes "GAP " ++ (s.group.arch ++ (codes " SUBSCRIPTIONS - " ++ s.group.supp))))
  pub support : At (codes "SUPPORT") cells (txt s.group.supp)
  pub node_architecture : At (codes "NODE_ARCHITECTURE") cells (txt s.group.arch)
  pub total_required_sub_for_physical_cpu_cores :
      At (codes "TOTAL_REQUIRED_SUB_FOR_PHYSICAL_CPU_CORES") cells (
        num (
          pos (summed (λ r. r.sub_phys) s.group rows + summed (λ r. r.sub_virt) s.group rows)
          -ℤ amount subs s.all_key))
  pub eus_term1_required_subs_physical_cpu_cores :
      At (codes "EUS_TERM1_REQUIRED_SUBS_PHYSICAL_CPU_CORES") cells (
        num (
          pos (summed (λ r. r.eus_t1_phys) s.group rows + summed (λ r. r.eus_t1_virt) s.group rows)
          -ℤ amount subs s.t1_key))
  pub eus_term2_required_subs_physical_cpu_cores :
      At (codes "EUS_TERM2_REQUIRED_SUBS_PHYSICAL_CPU_CORES") cells (
        num (
          pos (summed (λ r. r.eus_t2_phys) s.group rows + summed (λ r. r.eus_t2_virt) s.group rows)
          -ℤ amount subs s.t2_key))
  pub eus_term3_required_subs_physical_cpu_cores :
      At (codes "EUS_TERM3_REQUIRED_SUBS_PHYSICAL_CPU_CORES") cells (
        num (
          pos (summed (λ r. r.eus_t3_phys) s.group rows + summed (λ r. r.eus_t3_virt) s.group rows)
          -ℤ amount subs s.t3_key))
  pub is_grand_total : At (codes "IS_GRAND_TOTAL") cells (count 3)

-- The supply, as the four numbers of the code.
abbrev pub supplied : Subs → Supply → Available
supplied subs s = record {
  avail = amount subs s.all_key;
  t1 = amount subs s.t1_key;
  t2 = amount subs s.t2_key;
  t3 = amount subs s.t3_key;
}
