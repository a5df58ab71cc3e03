-- ===== src/Lifecycle/Overlap.antt =====
-- When a term is active.
use cluster_size_operator_fo.Prelude.{
  ℕ, ◌≡◌, ◌↔◌, refl, true, none, some, [], ◌∷◌, list_eq, nat_eq, arith, inl, inr, Bool-cases,
}
use cluster_size_operator_fo.Text.{Text, split}
use cluster_size_operator_fo.Dates.{Date, date_leb, strptime}
use cluster_size_operator_fo.Dates.Iso.{date_leb_trans, date_leb_refl, date_leb_total}
use cluster_size_operator_fo.Dict.{lookup}
use cluster_size_operator_fo.Lifecycle.{
  Lifecycle, Term, start_key, end_key, overlaps, term_active, evaluate_term,
}

-- The term `n` of the release has the first day `s` and the last day `e`.
pub record HasTerm (lifecycle : Lifecycle) (release : Text) (n : ℕ) (s e : Date) : Type 0 where
  pub ref : Term
  pub start : Text
  pub end : Text
  pub has_release : lookup release lifecycle ≡ some ref
  pub has_start : lookup (start_key n) ref ≡ some start
  pub has_end : lookup (end_key n) ref ≡ some end
  pub reads_start : strptime start ≡ some s
  pub reads_end : strptime end ≡ some e

strptime_nil : strptime [] ≡ none
unfolding strptime split
strptime_nil = refl

term_active_dates :
    (start end : Text) (s e a b : Date)
    → strptime start ≡ some s
    → strptime end ≡ some e
    → term_active (some start) (some end) a b ≡ overlaps (some s) (some e) a b
unfolding term_active
term_active_dates [] end s e a b h k = ground (arith, strptime_nil)
term_active_dates (c ∷ start) [] s e a b h k = ground (arith, strptime_nil)
term_active_dates (c ∷ start) (d ∷ end) s e a b h k = ground arith

evaluate_term_dates :
    (lifecycle : Lifecycle) (release : Text) (n : ℕ) (s e a b : Date)
    → HasTerm lifecycle release n s e
    → evaluate_term lifecycle release n a b ≡ overlaps (some s) (some e) a b
unfolding evaluate_term
evaluate_term_dates lifecycle release n s e a b h =
    rw (h.has_release, evaluate_term, h.has_start, h.has_end)
      (term_active_dates h.start h.end s e a b h.reads_start h.reads_end)

-- A day of both ranges.
abbrev pub SharedDay : Date → Date → Date → Date → Type 0
SharedDay s e a b =
    (d : Date) × (date_leb s d ≡ true)
    × (date_leb d e ≡ true)
    × (date_leb a d ≡ true)
    × (date_leb d b ≡ true)

shared_day :
    (s e a b : Date)
    → date_leb s e ≡ true
    → date_leb a b ≡ true
    → overlaps (some s) (some e) a b ≡ true
    → SharedDay s e a b
unfolding overlaps
shared_day s e a b se ab h = elim (Bool-cases (date_leb s a)) [
  | inl sa ↦ (a, sa, ground arith, date_leb_refl a, ab)
  | inr sa ↦ (s, date_leb_refl s, se, date_leb_total s a sa, ground arith)
]

overlaps_shared : (s e a b : Date) → SharedDay s e a b → overlaps (some s) (some e) a b ≡ true
unfolding overlaps
overlaps_shared s e a b (d, sd, de, ad, db) =
    ground (arith, date_leb_trans s d b sd db, date_leb_trans a d e ad de)

-- For a term and a range that do not end before they start: the term is reported active exactly when
-- some day lies in both.
pub evaluate_term-SharedDay :
    (lifecycle : Lifecycle) (release : Text) (n : ℕ) (s e a b : Date)
    → HasTerm lifecycle release n s e
    → date_leb s e ≡ true
    → date_leb a b ≡ true
    → (evaluate_term lifecycle release n a b ≡ true) ↔ SharedDay s e a b
evaluate_term-SharedDay lifecycle release n s e a b h se ab =
    rw (evaluate_term_dates lifecycle release n s e a b h)
      (shared_day s e a b se ab, overlaps_shared s e a b)
