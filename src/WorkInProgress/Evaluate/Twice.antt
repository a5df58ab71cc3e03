-- ===== src/WorkInProgress/Evaluate/Twice.antt =====
-- The totals of the four groups in the earlier variant.
use cluster_size_operator_fo.Prelude.{
  ℕ, ◌+◌, ◌*◌, ◌≡◌, refl, List, [], ◌∷◌, ◌==◌, list_eq, nat_eq, if◌then◌else◌, arith, All,
}
use cluster_size_operator_fo.Text.{Text}
use cluster_size_operator_fo.Compliance.Rows.{EvaluatedRow, s390x, amd64}
use cluster_size_operator_fo.Compliance.Groups.{GrandTotal, standard, premium, sum}
use cluster_size_operator_fo.Compliance.Groups.Totals.{HasArch, amd64-ne-s390x, sum-cons}
use cluster_size_operator_fo.WorkInProgress.Evaluate.Report.{filtered, grand_total}

one_row :
    (f : EvaluatedRow → ℕ) (r : EvaluatedRow) (rows : List EvaluatedRow) (arch supp : Text)
    → sum f (filtered (record { arch = arch; supp = supp }) (r ∷ rows))
      ≡ (if r.node_architecture == arch then f r else 0)
        + sum f (filtered (record { arch = arch; supp = supp }) rows)
unfolding filtered sum
one_row f r rows arch supp = ground arith

one_arch :
    (n : ℕ) (r : EvaluatedRow)
    → HasArch r
    → (if r.node_architecture == amd64 then n else 0)
        + (if r.node_architecture == s390x then n else 0)
      ≡ n
one_arch n r h = ground (arith, amd64-ne-s390x)

arch_sums :
    (f : EvaluatedRow → ℕ) (rows : List EvaluatedRow) (supp : Text)
    → All HasArch rows
    → sum f (filtered (record { arch = amd64; supp = supp }) rows)
        + sum f (filtered (record { arch = s390x; supp = supp }) rows)
      ≡ sum f rows
arch_sums f [] supp h = unfold filtered sum in refl
arch_sums f (r ∷ rows) supp (h, hs) = omega (
  arith,
  one_row f r rows amd64 supp,
  one_row f r rows s390x supp,
  one_arch (f r) r h,
  sum-cons f r rows,
  arch_sums f rows supp hs,
)

-- A number of the grand totals, added up over the four groups.
abbrev pub over_groups : (GrandTotal → ℕ) → List EvaluatedRow → ℕ
over_groups n rows =
    n (grand_total rows (record { arch = amd64; supp = standard }))
    + n (grand_total rows (record { arch = amd64; supp = premium }))
    + n (grand_total rows (record { arch = s390x; supp = standard }))
    + n (grand_total rows (record { arch = s390x; supp = premium }))

-- In the earlier variant, the grand totals of the four groups add up to twice the subscriptions that the rows need, for
-- physical cores as well as for vCPUs, if each row is of one of the two architectures.
pub grand_total_twice :
    (rows : List EvaluatedRow)
    → All HasArch rows
    → (over_groups (λ t. t.phys_sub) rows ≡ 2 * sum (λ r. r.sub_phys) rows)
      × (over_groups (λ t. t.virt_sub) rows ≡ 2 * sum (λ r. r.sub_virt) rows)
unfolding grand_total
grand_total_twice rows h = (
  omega (
    arith,
    arch_sums (λ r. r.sub_phys) rows standard h,
    arch_sums (λ r. r.sub_phys) rows premium h,
  ),
  omega (
    arith,
    arch_sums (λ r. r.sub_virt) rows standard h,
    arch_sums (λ r. r.sub_virt) rows premium h,
  ),
)
