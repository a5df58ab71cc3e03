-- ===== src/Text/Distinct.antt =====
-- Lists of texts as sets: membership, and lists in which no item stands twice.
use cluster_size_operator_fo.Prelude.{
  ◌≡◌, refl, ◌∙◌, true, false, ◌||◌, List, [], ◌∷◌, ◌++◌, ◌==◌, contains, nat_eq, list_eq, arith,
  All,
}
use cluster_size_operator_fo.Text.{Text}
use cluster_size_operator_fo.Text.Order.{insert_sorted, sorted, text_leb, IsSorted, sorted-IsSorted}

-- No item stands twice.
abbrev pub Distinct : List Text → Type 0
Distinct [] = Unit
Distinct (x ∷ xs) = (contains xs x ≡ false) × Distinct xs

pub contains-append :
    (xs ys : List Text) (x : Text) → contains (xs ++ ys) x ≡ (contains xs x || contains ys x)
contains-append [] ys x = refl
contains-append (y ∷ xs) ys x = ground (arith, contains-append xs ys x)

pub append-Distinct :
    (xs ys : List Text)
    → Distinct xs
    → Distinct ys
    → ((x : Text) → contains ys x ≡ true → contains xs x ≡ false)
    → Distinct (xs ++ ys)
append-Distinct [] ys hx hy apart = hy
append-Distinct (x ∷ xs) ys (h, hs) hy apart = (
  ground (arith, contains-append xs ys x, apart x),
  append-Distinct xs ys hs hy (λ z k. ground (arith, apart z k)),
)

contains-insert_sorted :
    (k j : Text) (ks : List Text) → contains (insert_sorted k ks) j ≡ (j == k || contains ks j)
unfolding insert_sorted
contains-insert_sorted k j [] = refl
contains-insert_sorted k j (i ∷ ks) = ground (arith, contains-insert_sorted k j ks)

pub contains-sorted : (ks : List Text) (j : Text) → contains (sorted ks) j ≡ contains ks j
unfolding sorted
contains-sorted [] j = refl
contains-sorted (k ∷ ks) j =
    ground (arith, contains-insert_sorted k j (sorted ks), contains-sorted ks j)

insert_sorted-Distinct :
    (k : Text) (ks : List Text)
    → contains ks k ≡ false
    → Distinct ks
    → Distinct (insert_sorted k ks)
unfolding insert_sorted
insert_sorted-Distinct k [] h d = (refl, tt)
insert_sorted-Distinct k (i ∷ ks) h (di, ds) =
    ground (arith, contains-insert_sorted k i ks, insert_sorted-Distinct k ks)

pub sorted-Distinct : (ks : List Text) → Distinct ks → Distinct (sorted ks)
unfolding sorted
sorted-Distinct [] d = tt
sorted-Distinct (k ∷ ks) (dk, ds) =
    insert_sorted-Distinct k (sorted ks) (contains-sorted ks k ∙ dk) (sorted-Distinct ks ds)

insert_sorted_first :
    (k : Text) (ks : List Text) → All (λ j. text_leb k j ≡ true) ks → insert_sorted k ks ≡ k ∷ ks
unfolding insert_sorted
insert_sorted_first k [] h = refl
insert_sorted_first k (j ∷ js) (h, hs) = rw h refl

sorted_same : (ks : List Text) → IsSorted ks → sorted ks ≡ ks
unfolding sorted
sorted_same [] h = refl
sorted_same (k ∷ ks) (h, hs) = rw (sorted_same ks hs) (insert_sorted_first k ks h)

pub sorted_idem : (ks : List Text) → sorted (sorted ks) ≡ sorted ks
sorted_idem ks = sorted_same (sorted ks) (sorted-IsSorted ks)
