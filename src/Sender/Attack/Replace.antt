-- ===== src/Sender/Attack/Replace.antt =====
-- `replace` and the other changes of a list of rows.
use cluster_size_operator_fo.Prelude.{
  ℕ, zero, suc, ◌-◌, ◌<◌, ◌≡◌, ◌≢◌, refl, ◌∙◌, ap, sym, true, false, List, [], ◌∷◌, ◌++◌, arith,
  All, All-append, length, get_or, set, take, drop, nat_eq, list_eq, inl, inr, Bool-cases,
}
use cluster_size_operator_fo.Text.{Text, starts_with, has_infix}
use cluster_size_operator_fo.Sender.Attack.{replace_from, replace, pop, insert_at}

pub replace_from-All :
    (P : ℕ → Type 0) (old new : Text) (skip : ℕ) (s : Text)
    → All P new
    → All P s
    → All P (replace_from old new skip s)
unfolding replace_from
replace_from-All P old new skip [] hn hs = tt
replace_from-All P old new (suc skip) (c ∷ s) hn (h, hs) = replace_from-All P old new skip s hn hs
replace_from-All P old new zero (c ∷ s) hn (h, hs) = elim (Bool-cases (starts_with old (c ∷ s))) [
  | inl y ↦ rw (y) (
      All-append P new (replace_from old new (length old - 1) s) hn
        (replace_from-All P old new (length old - 1) s hn hs))
  | inr n ↦ rw (n) (h, replace_from-All P old new 0 s hn hs)
]

starts_with-append : (old s : Text) → starts_with old s ≡ true → (rest : Text) × (s ≡ old ++ rest)
unfolding starts_with
starts_with-append [] s h = (s, refl)
starts_with-append (o ∷ old) [] h = cc
starts_with-append (o ∷ old) (c ∷ s) h =
    let (rest, e) = starts_with-append old s (ground arith) in (rest, ground arith)

no_start : (old : Text) → old ≢ [] → starts_with old [] ≡ false
unfolding starts_with
no_start [] h = absurd (h refl)
no_start (o ∷ old) h = refl

hit :
    (old new : Text) (c : ℕ) (s : Text)
    → starts_with old (c ∷ s) ≡ true
    → replace old new (c ∷ s) ≡ new ++ replace_from old new (length old - 1) s
unfolding replace_from
hit old new c s h = ground arith

miss :
    (old new : Text) (c : ℕ) (s : Text)
    → starts_with old (c ∷ s) ≡ false
    → replace old new (c ∷ s) ≡ c ∷ replace old new s
unfolding replace_from
miss old new c s h = ground arith

-- A hit changes a text, if the new part is no start of a text with the old part at its start.
pub replace-changes :
    (old new : Text)
    → old ≢ []
    → ((x y : Text) → new ++ x ≢ old ++ y)
    → (s : Text) → has_infix old s ≡ true
    → replace old new s ≢ s
unfolding has_infix
replace-changes old new ne clash [] h e = ground (arith, no_start old ne)
replace-changes old new ne clash (c ∷ s) h e = elim (Bool-cases (starts_with old (c ∷ s))) [
  | inl y ↦
      let (rest, f) = starts_with-append old (c ∷ s) y in
      clash (replace_from old new (length old - 1) s) rest (sym (hit old new c s y) ∙ e ∙ f)
  | inr n ↦
      let later : has_infix old s ≡ true = ground arith in
      let same : c ∷ replace old new s ≡ c ∷ s = sym (miss old new c s n) ∙ e in
      replace-changes old new ne clash s later (ap (λ (t : Text). drop 1 t) same)
]

pub has_infix-behind : (old p s : Text) → has_infix old s ≡ true → has_infix old (p ++ s) ≡ true
unfolding has_infix
has_infix-behind old [] s h = h
has_infix-behind old (c ∷ p) s h = ground (arith, has_infix-behind old p s h)

pub set-All {ℓ} :
    {A : Type ℓ} (P : A → Type 0) (xs : List A) (i : ℕ) (v : A)
    → All P xs
    → P v
    → All P (set xs i v)
set-All P [] i v h k = tt
set-All P (x ∷ xs) zero v (h, hs) k = (k, hs)
set-All P (x ∷ xs) (suc i) v (h, hs) k = (h, set-All P xs i v hs k)

pub take-All {ℓ} :
    {A : Type ℓ} (P : A → Type 0) (n : ℕ) (xs : List A) → All P xs → All P (take n xs)
take-All P zero xs h = tt
take-All P (suc n) [] h = tt
take-All P (suc n) (x ∷ xs) (h, hs) = (h, take-All P n xs hs)

pub pop-All : (P : Text → Type 0) (i : ℕ) (lines : List Text) → All P lines → All P (pop i lines)
pop-All P i [] h = tt
pop-All P zero (line ∷ lines) (h, hs) = hs
pop-All P (suc i) (line ∷ lines) (h, hs) = (h, pop-All P i lines hs)

pub insert_at-All :
    (P : Text → Type 0) (i : ℕ) (new : Text) (lines : List Text)
    → P new
    → All P lines
    → All P (insert_at i new lines)
insert_at-All P i new [] k h = (k, tt)
insert_at-All P zero new (line ∷ lines) k (h, hs) = (k, (h, hs))
insert_at-All P (suc i) new (line ∷ lines) k (h, hs) = (h, insert_at-All P i new lines k hs)

get_or-set :
    (lines : List Text) (i : ℕ) (v : Text) → i < length lines → get_or (set lines i v) i [] ≡ v
get_or-set [] i v h = absurd (omega arith)
get_or-set (line ∷ lines) zero v h = refl
get_or-set (line ∷ lines) (suc i) v h = get_or-set lines i v (omega arith)

-- A line that is set to another one makes another list.
pub set-changes :
    (lines : List Text) (i : ℕ) (v : Text)
    → i < length lines
    → v ≢ get_or lines i []
    → set lines i v ≢ lines
set-changes lines i v h k e =
    k (sym (get_or-set lines i v h) ∙ ap (λ (ls : List Text). get_or ls i []) e)
