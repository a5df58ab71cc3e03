-- ===== src/Receiver/ClusterIds/Sets.antt =====
-- Sets of texts as lists.
use cluster_size_operator_fo.Prelude.{
  ◌≡◌, refl, ◌&&◌, not, List, [], ◌∷◌, contains, nat_eq, list_eq, arith,
}
use cluster_size_operator_fo.Text.{Text}
use cluster_size_operator_fo.Text.Distinct.{Distinct}
use cluster_size_operator_fo.Receiver.ClusterIds.{unique, minus}

pub contains-unique : (xs : List Text) (x : Text) → contains (unique xs) x ≡ contains xs x
unfolding unique
contains-unique [] x = refl
contains-unique (y ∷ xs) x = ground (arith, contains-unique xs x, contains-unique xs y)

pub unique-Distinct : (xs : List Text) → Distinct (unique xs)
unfolding unique
unique-Distinct [] = tt
unique-Distinct (x ∷ xs) = ground (arith, unique-Distinct xs)

pub contains-minus :
    (xs ys : List Text) (x : Text)
    → contains (minus xs ys) x ≡ (contains xs x && not (contains ys x))
unfolding minus
contains-minus [] ys x = refl
contains-minus (y ∷ xs) ys x = ground (arith, contains-minus xs ys x)

pub minus-Distinct : (xs ys : List Text) → Distinct xs → Distinct (minus xs ys)
unfolding minus
minus-Distinct [] ys h = tt
minus-Distinct (x ∷ xs) ys (h, hs) = ground (arith, minus-Distinct xs ys hs, contains-minus xs ys x)
