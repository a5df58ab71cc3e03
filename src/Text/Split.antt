-- ===== src/Text/Split.antt =====
-- `split` and `join` undo one another.
use cluster_size_operator_fo.Prelude.{
  ℕ, ◌≡◌, ◌≢◌, refl, ap, List, [], ◌∷◌, ◌++◌, arith, All, nat_eq, ◌∙◌,
}
use cluster_size_operator_fo.Text.{Text, cons_head, split, join}

abbrev pub Lacks : ℕ → Text → Type 0
Lacks sep = All (λ c. c ≢ sep)

cons_head-ne-nil : (c : ℕ) (ps : List Text) → cons_head c ps ≢ []
cons_head-ne-nil c [] h = cc
cons_head-ne-nil c (p ∷ ps) h = cc

pub split-ne-nil : (sep : ℕ) (s : Text) → split sep s ≢ []
unfolding split
split-ne-nil sep [] h = cc
split-ne-nil sep (c ∷ s) h = ground (arith, cons_head-ne-nil c (split sep s))

join-cons_head : (sep c : ℕ) (ps : List Text) → join sep (cons_head c ps) ≡ c ∷ join sep ps
unfolding join
join-cons_head sep c [] = refl
join-cons_head sep c (p ∷ []) = refl
join-cons_head sep c (p ∷ q ∷ ps) = refl

join_nil_head : (sep : ℕ) (ps : List Text) → ps ≢ [] → join sep ([] ∷ ps) ≡ sep ∷ join sep ps
unfolding join
join_nil_head sep [] h = absurd (h refl)
join_nil_head sep (p ∷ ps) h = refl

-- Joining the parts of a split gives the text back.
pub join-split : (sep : ℕ) (s : Text) → join sep (split sep s) ≡ s
unfolding split
join-split sep [] = unfold join in refl
join-split sep (c ∷ s) = ground (
  arith,
  join-split sep s,
  join-cons_head sep c (split sep s),
  join_nil_head sep (split sep s) (split-ne-nil sep s),
)

split-append :
    (sep : ℕ) (p rest : Text) → Lacks sep p → split sep (p ++ sep ∷ rest) ≡ p ∷ split sep rest
unfolding split
split-append sep [] rest h = ground arith
split-append sep (c ∷ p) rest (hc, hp) = ground (arith, split-append sep p rest hp)

split-Lacks : (sep : ℕ) (p : Text) → Lacks sep p → split sep p ≡ p ∷ []
unfolding split
split-Lacks sep [] h = refl
split-Lacks sep (c ∷ p) (hc, hp) = ground (arith, split-Lacks sep p hp)

-- Splitting a join gives the parts back, if there is a part and none holds the separator.
pub split-join :
    (sep : ℕ) (p : Text) (ps : List Text)
    → Lacks sep p
    → All (Lacks sep) ps
    → split sep (join sep (p ∷ ps)) ≡ p ∷ ps
unfolding join
split-join sep p [] h hs = split-Lacks sep p h
split-join sep p (q ∷ ps) h (hq, hs) =
    split-append sep p (join sep (q ∷ ps)) h ∙ ap (λ r. p ∷ r) (split-join sep q ps hq hs)

cons_head-Lacks :
    (sep c : ℕ) (ps : List Text) → c ≢ sep → All (Lacks sep) ps → All (Lacks sep) (cons_head c ps)
cons_head-Lacks sep c [] h hs = ((h, tt), tt)
cons_head-Lacks sep c (p ∷ ps) h (hp, hs) = ((h, hp), hs)

-- No part of a split holds the separator.
pub split-All-Lacks : (sep : ℕ) (s : Text) → All (Lacks sep) (split sep s)
unfolding split
split-All-Lacks sep [] = (tt, tt)
split-All-Lacks sep (c ∷ s) =
    ground (arith, split-All-Lacks sep s, cons_head-Lacks sep c (split sep s))
