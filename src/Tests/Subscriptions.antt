-- ===== src/Tests/Subscriptions.antt =====
-- The files that `run_evaluation` reads beside the input.
use cluster_size_operator_fo.Prelude.{
  ◌≡◌, ◌↔◌, refl, arith, true, some, [], ◌∷◌, nat_eq, list_eq, inr,
}
use cluster_size_operator_fo.Prelude.Int.{pos}
use cluster_size_operator_fo.Text.{codes, read_lines, split}
use cluster_size_operator_fo.Dict.{lookup, or_else}
use cluster_size_operator_fo.Dates.{
  date_leb, strptime, make_date, year_field, field_upto, day_field,
}
use cluster_size_operator_fo.Text.Number.{show}
use cluster_size_operator_fo.Lifecycle.{Lifecycle, load_lifecycle, evaluate_term}
use cluster_size_operator_fo.Lifecycle.Load.{load_lifecycle_total}
use cluster_size_operator_fo.Lifecycle.Overlap.{HasTerm, SharedDay, evaluate_term-SharedDay}
use cluster_size_operator_fo.Subscriptions.{load_subscriptions}
use cluster_size_operator_fo.Subscriptions.Laws.{last_value, lookup-load_subscriptions}
use cluster_size_operator_fo.Tests.Data.{first_day, last_day, names, release_record}

lookup-load_subscriptions_example :
    lookup
      (codes "premium_ocp_subscriptions")
      (load_subscriptions (some (codes "premium_ocp_subscriptions=7")))
    ≡ some (
        or_else
          (last_value
            (codes "premium_ocp_subscriptions")
            (read_lines (codes "premium_ocp_subscriptions=7")))
          (pos 0))
unfolding lookup nat_eq list_eq
lookup-load_subscriptions_example =
    lookup-load_subscriptions (codes "premium_ocp_subscriptions")
      (codes "premium_ocp_subscriptions=7") refl

load_lifecycle_total_example :
    (lifecycle : Lifecycle) × (load_lifecycle (some (names ∷ release_record ∷ [])) ≡ some lifecycle)
load_lifecycle_total_example =
    load_lifecycle_total names (release_record ∷ []) (inr (omega arith), tt)

abbrev releases : Lifecycle
releases =
    (
      codes "4.20",
      (codes "t1_start", codes "2025-01-01") ∷ (codes "t1_end", codes "2025-12-31") ∷ [],
    )
    ∷ []

releases-HasTerm : HasTerm releases (codes "4.20") 1 first_day last_day
unfolding lookup nat_eq list_eq strptime show split make_date year_field field_upto day_field
releases-HasTerm = record {
  ref = (codes "t1_start", codes "2025-01-01") ∷ (codes "t1_end", codes "2025-12-31") ∷ [];
  start = codes "2025-01-01";
  end = codes "2025-12-31";
  has_release = refl;
  has_start = refl;
  has_end = refl;
  reads_start = refl;
  reads_end = refl;
}

evaluate_term-SharedDay_example :
    (evaluate_term releases (codes "4.20") 1 first_day last_day ≡ true)
    ↔ SharedDay first_day last_day first_day last_day
unfolding date_leb
evaluate_term-SharedDay_example =
    evaluate_term-SharedDay releases (codes "4.20") 1 first_day last_day first_day last_day
      releases-HasTerm refl refl
