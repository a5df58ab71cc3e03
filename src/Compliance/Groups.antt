-- ===== src/Compliance/Groups.antt =====
-- The four groups of the report of `run_evaluation`: the grand total of a group, the subscriptions that
-- are available for it, and the gap between the two.
pub mod Totals
use cluster_size_operator_fo.Prelude.{
  ℕ, ◌+◌, Bool, ◌&&◌, Option, some, List, [], ◌∷◌, ◌==◌, list_eq, nat_eq, if◌then◌else◌,
}
use cluster_size_operator_fo.Prelude.Int.{ℤ, pos, ◌-ℤ◌}
use cluster_size_operator_fo.Text.{Text, codes}
use cluster_size_operator_fo.Dict.{lookup}
use cluster_size_operator_fo.Lifecycle.{◌>>=◌}
use cluster_size_operator_fo.Subscriptions.{Subs}
use cluster_size_operator_fo.Compliance.Rows.{EvaluatedRow, s390x, amd64}

-- A pair `(arch, supp)` of `aggr_groups`.
pub record Group : Type 0 where
  pub arch : Text
  pub supp : Text

abbrev pub standard : Text
standard = codes "STANDARD"

abbrev pub premium : Text
premium = codes "PREMIUM"

abbrev pub aggr_groups : List Group
aggr_groups =
    record { arch = amd64; supp = standard }
    ∷ record { arch = amd64; supp = premium }
    ∷ record { arch = s390x; supp = standard }
    ∷ record { arch = s390x; supp = premium }
    ∷ []

unfoldable pub in_group : Group → EvaluatedRow → Bool
in_group g r = r.node_architecture == g.arch && r.support == g.supp

-- `[r for r in evaluated_rows if …]`
unfoldable pub filtered : Group → List EvaluatedRow → List EvaluatedRow
filtered g [] = []
filtered g (r ∷ rows) = let rest = filtered g rows in if in_group g r then r ∷ rest else rest

-- `sum(f(r) for r in rows)`
unfoldable pub sum : (EvaluatedRow → ℕ) → List EvaluatedRow → ℕ
sum f [] = 0
sum f (r ∷ rows) = f r + sum f rows

-- `grand_totals[(arch, supp)]`
pub record GrandTotal : Type 0 where
  pub cores : ℕ
  pub vcpus : ℕ
  pub phys_sub : ℕ
  pub virt_sub : ℕ
  pub t1_p : ℕ
  pub t2_p : ℕ
  pub t3_p : ℕ
  pub t1_v : ℕ
  pub t2_v : ℕ
  pub t3_v : ℕ

unfoldable pub grand_total : List EvaluatedRow → Group → GrandTotal
grand_total rows g =
    let rs = filtered g rows in
    record {
      cores = sum (λ r. r.total_physical_cpu_cores) rs;
      vcpus = sum (λ r. r.total_virtual_vcpus) rs;
      phys_sub = sum (λ r. r.sub_phys) rs;
      virt_sub = sum (λ r. r.sub_virt) rs;
      t1_p = sum (λ r. r.eus_t1_phys) rs;
      t2_p = sum (λ r. r.eus_t2_phys) rs;
      t3_p = sum (λ r. r.eus_t3_phys) rs;
      t1_v = sum (λ r. r.eus_t1_virt) rs;
      t2_v = sum (λ r. r.eus_t2_virt) rs;
      t3_v = sum (λ r. r.eus_t3_virt) rs;
    }

-- `avail_subs[(arch, supp)]`
pub record Available : Type 0 where
  pub avail : ℤ
  pub t1 : ℤ
  pub t2 : ℤ
  pub t3 : ℤ

-- `none` is the `KeyError` of `subs[…]`.
unfoldable pub available : Subs → Group → Option Available
available subs g =
    if g.arch == s390x
    then (do
      n ←
          if g.supp == premium
          then lookup (codes "premium_s390x_subscriptions") subs
          else lookup (codes "standard_s390x_subscriptions") subs
      some (record { avail = n; t1 = pos 0; t2 = pos 0; t3 = pos 0 }))
    else do
      n ←
          if g.supp == premium
          then lookup (codes "premium_ocp_subscriptions") subs
          else lookup (codes "standard_ocp_subscriptions") subs
      a ← if g.supp == standard then lookup (codes "standard_ocp_term_1") subs else some (pos 0)
      b ←
          if g.supp == premium
          then lookup (codes "premium_ocp_term_2") subs
          else lookup (codes "standard_ocp_term_2") subs
      c ←
          if g.supp == premium
          then lookup (codes "premium_ocp_term_3") subs
          else lookup (codes "standard_ocp_term_3") subs
      some (record { avail = n; t1 = a; t2 = b; t3 = c })

-- What is needed, less what is available.
pub record Gap : Type 0 where
  pub phys : ℤ
  pub t1 : ℤ
  pub t2 : ℤ
  pub t3 : ℤ

unfoldable pub gap : GrandTotal → Available → Gap
gap g a = record {
  phys = pos (g.phys_sub + g.virt_sub) -ℤ a.avail;
  t1 = pos (g.t1_p + g.t1_v) -ℤ a.t1;
  t2 = pos (g.t2_p + g.t2_v) -ℤ a.t2;
  t3 = pos (g.t3_p + g.t3_v) -ℤ a.t3;
}
