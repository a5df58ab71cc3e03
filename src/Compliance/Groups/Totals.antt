-- ===== src/Compliance/Groups/Totals.antt =====
-- The grand totals and the gaps.
use cluster_size_operator_fo.Prelude.{
  ℕ, ◌+◌, ◌≡◌, ◌≢◌, ◌↔◌, refl, ◌⊎◌, Bool, ◌&&◌, ◌||◌, List, [], ◌∷◌, ◌==◌, list_eq, nat_eq,
  if◌then◌else◌, arith, All, ap, get_or,
}
use cluster_size_operator_fo.Prelude.Int.{pos, ◌≤ℤ◌, int_laws}
use cluster_size_operator_fo.Text.{Text}
use cluster_size_operator_fo.Compliance.{Header, Node}
use cluster_size_operator_fo.Compliance.Rows.{
  EvaluatedRow, Terms, s390x, amd64, make_row, arch_group,
}
use cluster_size_operator_fo.Compliance.Groups.{
  GrandTotal, Available, standard, premium, in_group, filtered, sum, gap,
}

-- The row belongs to one of the two support tiers.
abbrev pub is_tiered : EvaluatedRow → Bool
is_tiered r = r.support == standard || r.support == premium

-- The rows of no support tier.
abbrev pub untiered : List EvaluatedRow → List EvaluatedRow
untiered [] = []
untiered (r ∷ rows) = let rest = untiered rows in if is_tiered r then rest else r ∷ rest

abbrev pub HasArch : EvaluatedRow → Type 0
HasArch r = (r.node_architecture ≡ amd64) ⊎ (r.node_architecture ≡ s390x)

make_row-HasArch : (t : Terms) (h : Header) (node : Node) → HasArch (make_row t h node)
unfolding make_row arch_group
make_row-HasArch t h node = ground arith

abbrev pub tier_sum : (EvaluatedRow → ℕ) → List EvaluatedRow → Text → Text → ℕ
tier_sum f rows arch supp = sum f (filtered (record { arch = arch; supp = supp }) rows)

pub one_row :
    (f : EvaluatedRow → ℕ) (r : EvaluatedRow) (rows : List EvaluatedRow) (arch supp : Text)
    → tier_sum f (r ∷ rows) arch supp
      ≡ (if r.node_architecture == arch && r.support == supp then f r else 0)
        + tier_sum f rows arch supp
unfolding filtered sum in_group
one_row f r rows arch supp = ground arith

pub amd64-ne-s390x : amd64 ≢ s390x
amd64-ne-s390x h = omega (arith, ap (λ (s : Text). get_or s 0 0) h)

standard-ne-premium : standard ≢ premium
standard-ne-premium h = omega (arith, ap (λ (s : Text). get_or s 0 0) h)

one_group :
    (n : ℕ) (r : EvaluatedRow)
    → HasArch r
    → (if r.node_architecture == amd64 && r.support == standard then n else 0)
        + (if r.node_architecture == amd64 && r.support == premium then n else 0)
        + (if r.node_architecture == s390x && r.support == standard then n else 0)
        + (if r.node_architecture == s390x && r.support == premium then n else 0)
        + (if is_tiered r then 0 else n)
      ≡ n
one_group n r h = ground (arith, amd64-ne-s390x, standard-ne-premium)

untiered_row :
    (f : EvaluatedRow → ℕ) (r : EvaluatedRow) (rows : List EvaluatedRow)
    → sum f (untiered (r ∷ rows)) ≡ (if is_tiered r then 0 else f r) + sum f (untiered rows)
unfolding sum
untiered_row f r rows = ground arith

pub sum-cons :
    (f : EvaluatedRow → ℕ) (r : EvaluatedRow) (rows : List EvaluatedRow)
    → sum f (r ∷ rows) ≡ f r + sum f rows
unfolding sum
sum-cons f r rows = refl

-- Whatever is summed over rows of the two architectures, the four groups share out the rows: each row of a support tier is counted in exactly
-- one group, and what the groups leave out is what the rows of no tier have.
pub sum_by_groups :
    (f : EvaluatedRow → ℕ) (rows : List EvaluatedRow)
    → All HasArch rows
    → tier_sum f rows amd64 standard
        + tier_sum f rows amd64 premium
        + tier_sum f rows s390x standard
        + tier_sum f rows s390x premium
        + sum f (untiered rows)
      ≡ sum f rows
sum_by_groups f [] h = unfold filtered sum in refl
sum_by_groups f (r ∷ rows) (h, hs) = omega (
  arith,
  one_row f r rows amd64 standard,
  one_row f r rows amd64 premium,
  one_row f r rows s390x standard,
  one_row f r rows s390x premium,
  untiered_row f r rows,
  one_group (f r) r h,
  sum-cons f r rows,
  sum_by_groups f rows hs,
)

-- A gap is not positive exactly when the available subscriptions cover what the group needs.
pub gap_covered :
    (t : GrandTotal) (a : Available)
    → ((gap t a).phys ≤ℤ pos 0) ↔ (pos (t.phys_sub + t.virt_sub) ≤ℤ a.avail)
unfolding gap
gap_covered t a = (λ h. omega int_laws, λ h. omega int_laws)
