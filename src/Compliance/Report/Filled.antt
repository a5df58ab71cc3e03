-- ===== src/Compliance/Report/Filled.antt =====
-- The cells of each record stand in the columns of their names.
use cluster_size_operator_fo.Prelude.{ℕ, ◌+◌, ◌≡◌, refl, ap, List, [], ◌∷◌, list_eq, nat_eq, arith}
use cluster_size_operator_fo.Prelude.Int.{ℤ, pos, ◌-ℤ◌}
use cluster_size_operator_fo.Subscriptions.{Subs}
use cluster_size_operator_fo.Compliance.Rows.{EvaluatedRow}
use cluster_size_operator_fo.Compliance.Groups.{Group, filtered, sum, grand_total, gap}
use cluster_size_operator_fo.Compliance.Groups.Totals.{tier_sum, one_row}
use cluster_size_operator_fo.Compliance.Report.{
  num, count, node_cells, total_cells, available_cells, gap_cells,
}
use cluster_size_operator_fo.Compliance.Report.Columns.{
  Supply, amount, supplied, summed, IsNodeRecord, IsTotalRecord, IsAvailableRecord, IsGapRecord,
}

pub node_cells-IsNodeRecord : (r : EvaluatedRow) → IsNodeRecord r (node_cells r)
unfolding node_cells list_eq nat_eq
node_cells-IsNodeRecord r = record {
  wide = refl;
  cluster_id = refl;
  platform = refl;
  cluster_version = refl;
  cluster_initial_version = refl;
  cluster_node_count = refl;
  cluster_installed_at = refl;
  support = refl;
  hostname = refl;
  node_roles = refl;
  node_architecture = refl;
  last_update_received = refl;
  total_memory = refl;
  total_physical_cpu_cores = refl;
  total_virtual_vcpus = refl;
  total_required_sub_for_physical_cpu_cores = refl;
  total_required_sub_for_virtual_vcpus = refl;
  eus_term1_required_subs_physical_cpu_cores = refl;
  eus_term2_required_subs_physical_cpu_cores = refl;
  eus_term3_required_subs_physical_cpu_cores = refl;
  eus_term1_required_subs_virtual_vcpus = refl;
  eus_term2_required_subs_virtual_vcpus = refl;
  eus_term3_required_subs_virtual_vcpus = refl;
  is_grand_total = refl;
}

tier_sum-summed :
    (f : EvaluatedRow → ℕ) (g : Group) (rows : List EvaluatedRow)
    → tier_sum f rows g.arch g.supp ≡ summed f g rows
tier_sum-summed f g [] = unfold filtered sum in refl
tier_sum-summed f g (r ∷ rows) =
    omega (arith, one_row f r rows g.arch g.supp, tier_sum-summed f g rows)

pub available_cells-IsAvailableRecord :
    (subs : Subs) (s : Supply)
    → IsAvailableRecord subs s (available_cells s.group (supplied subs s))
unfolding available_cells list_eq nat_eq
available_cells-IsAvailableRecord subs s = record {
  wide = refl;
  cluster_id = refl;
  support = refl;
  node_architecture = refl;
  total_required_sub_for_physical_cpu_cores = refl;
  eus_term1_required_subs_physical_cpu_cores = refl;
  eus_term2_required_subs_physical_cpu_cores = refl;
  eus_term3_required_subs_physical_cpu_cores = refl;
  is_grand_total = refl;
}

module _ (rows : List EvaluatedRow) where
  sum_cell :
      (f : EvaluatedRow → ℕ) (g : Group)
      → count (tier_sum f rows g.arch g.supp) ≡ count (summed f g rows)
  sum_cell f g = ap count (tier_sum-summed f g rows)

  pub total_cells-IsTotalRecord :
      (g : Group) → IsTotalRecord rows g (total_cells g (grand_total rows g))
  unfolding total_cells grand_total list_eq nat_eq
  total_cells-IsTotalRecord g = record {
    wide = refl;
    cluster_id = refl;
    support = refl;
    node_architecture = refl;
    total_physical_cpu_cores = sum_cell (λ r. r.total_physical_cpu_cores) g;
    total_virtual_vcpus = sum_cell (λ r. r.total_virtual_vcpus) g;
    total_required_sub_for_physical_cpu_cores = sum_cell (λ r. r.sub_phys) g;
    total_required_sub_for_virtual_vcpus = sum_cell (λ r. r.sub_virt) g;
    eus_term1_required_subs_physical_cpu_cores = sum_cell (λ r. r.eus_t1_phys) g;
    eus_term2_required_subs_physical_cpu_cores = sum_cell (λ r. r.eus_t2_phys) g;
    eus_term3_required_subs_physical_cpu_cores = sum_cell (λ r. r.eus_t3_phys) g;
    eus_term1_required_subs_virtual_vcpus = sum_cell (λ r. r.eus_t1_virt) g;
    eus_term2_required_subs_virtual_vcpus = sum_cell (λ r. r.eus_t2_virt) g;
    eus_term3_required_subs_virtual_vcpus = sum_cell (λ r. r.eus_t3_virt) g;
    is_grand_total = refl;
  }

  need_cell :
      (f h : EvaluatedRow → ℕ) (g : Group) (a : ℤ)
      → num (pos (tier_sum f rows g.arch g.supp + tier_sum h rows g.arch g.supp) -ℤ a)
        ≡ num (pos (summed f g rows + summed h g rows) -ℤ a)
  need_cell f h g a = rw (tier_sum-summed f g rows, tier_sum-summed h g rows) refl

  pub gap_cells-IsGapRecord :
      (subs : Subs) (s : Supply)
      → IsGapRecord subs rows s
          (gap_cells s.group (gap (grand_total rows s.group) (supplied subs s)))
  unfolding gap_cells gap grand_total list_eq nat_eq
  gap_cells-IsGapRecord subs s = record {
    wide = refl;
    cluster_id = refl;
    support = refl;
    node_architecture = refl;
    total_required_sub_for_physical_cpu_cores =
        need_cell (λ r. r.sub_phys) (λ r. r.sub_virt) s.group (amount subs s.all_key);
    eus_term1_required_subs_physical_cpu_cores =
        need_cell (λ r. r.eus_t1_phys) (λ r. r.eus_t1_virt) s.group (amount subs s.t1_key);
    eus_term2_required_subs_physical_cpu_cores =
        need_cell (λ r. r.eus_t2_phys) (λ r. r.eus_t2_virt) s.group (amount subs s.t2_key);
    eus_term3_required_subs_physical_cpu_cores =
        need_cell (λ r. r.eus_t3_phys) (λ r. r.eus_t3_virt) s.group (amount subs s.t3_key);
    is_grand_total = refl;
  }
