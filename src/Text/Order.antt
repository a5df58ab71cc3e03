-- ===== src/Text/Order.antt =====
-- The order of Python's texts, by code points, and `sorted`.
use cluster_size_operator_fo.Prelude.{
  ◌≡◌, ◌↔◌, refl, Bool, true, false, ◌&&◌, ◌||◌, List, [], ◌∷◌, arith, leb, ltb, if◌then◌else◌, All,
}
use mathlib.Core.List.{Memᴰ}
use mathlib.Core.List.Permᴰ
use mathlib.Core.List.{Permᴰ}
use cluster_size_operator_fo.Text.{Text}

-- `s <= t`
unfoldable pub text_leb : Text → Text → Bool
text_leb [] t = true
text_leb (c ∷ s) [] = false
text_leb (c ∷ s) (d ∷ t) = ltb c d || (leb c d && text_leb s t)

unfoldable pub insert_sorted : Text → List Text → List Text
insert_sorted k [] = k ∷ []
insert_sorted k (j ∷ js) =
    let rest = insert_sorted k js in if text_leb k j then k ∷ j ∷ js else j ∷ rest

-- `sorted(texts)`
unfoldable pub sorted : List Text → List Text
unfolding insert_sorted text_leb
sorted [] = []
sorted (k ∷ ks) = insert_sorted k (sorted ks)

pub text_leb_total : (s t : Text) → text_leb s t ≡ false → text_leb t s ≡ true
unfolding text_leb
text_leb_total [] t h = cc
text_leb_total (c ∷ s) [] h = refl
text_leb_total (c ∷ s) (d ∷ t) h = ground (arith, text_leb_total s t)

pub text_leb_trans :
    (s t u : Text) → text_leb s t ≡ true → text_leb t u ≡ true → text_leb s u ≡ true
unfolding text_leb
text_leb_trans [] t u h k = refl
text_leb_trans (c ∷ s) [] u h k = cc
text_leb_trans (c ∷ s) (d ∷ t) [] h k = cc
text_leb_trans (c ∷ s) (d ∷ t) (e ∷ u) h k = ground (arith, text_leb_trans s t u)

pub text_leb_antisym : (s t : Text) → text_leb s t ≡ true → text_leb t s ≡ true → s ≡ t
unfolding text_leb
text_leb_antisym [] [] h k = refl
text_leb_antisym [] (d ∷ t) h k = cc
text_leb_antisym (c ∷ s) [] h k = cc
text_leb_antisym (c ∷ s) (d ∷ t) h k = ground (arith, text_leb_antisym s t)

-- Each text is at most every text behind it.
abbrev pub IsSorted : List Text → Type 0
IsSorted [] = Unit
IsSorted (k ∷ ks) = All (λ j. text_leb k j ≡ true) ks × IsSorted ks

All-insert_sorted :
    (P : Text → Type 0) (k : Text) (ks : List Text) → P k → All P ks → All P (insert_sorted k ks)
unfolding insert_sorted
All-insert_sorted P k [] h hs = (h, tt)
All-insert_sorted P k (j ∷ js) h (hj, hs) = ground (arith, All-insert_sorted P k js h hs)

All-trans :
    (k j : Text) (js : List Text)
    → text_leb k j ≡ true
    → All (λ i. text_leb j i ≡ true) js
    → All (λ i. text_leb k i ≡ true) js
All-trans k j [] h hs = tt
All-trans k j (i ∷ js) h (hi, hs) = (text_leb_trans k j i h hi, All-trans k j js h hs)

insert_sorted-IsSorted : (k : Text) (ks : List Text) → IsSorted ks → IsSorted (insert_sorted k ks)
unfolding insert_sorted
insert_sorted-IsSorted k [] h = (tt, tt)
insert_sorted-IsSorted k (j ∷ js) (hj, hs) = ground (
  arith,
  All-trans k j js,
  text_leb_total k j,
  All-insert_sorted (λ i. text_leb j i ≡ true) k js,
  insert_sorted-IsSorted k js hs,
)

pub sorted-IsSorted : (ks : List Text) → IsSorted (sorted ks)
unfolding sorted
sorted-IsSorted [] = tt
sorted-IsSorted (k ∷ ks) = insert_sorted-IsSorted k (sorted ks) (sorted-IsSorted ks)

under_cons :
    (i k : Text) (ks js : List Text) → (Memᴰ i ks → Memᴰ i js) → Memᴰ i (k ∷ ks) → Memᴰ i (k ∷ js)
under_cons i k ks js f (Memᴰ.head e) = Memᴰ.head e
under_cons i k ks js f (Memᴰ.tail m) = Memᴰ.tail (f m)

swap_heads : (i j k : Text) (ks : List Text) → Memᴰ i (j ∷ k ∷ ks) → Memᴰ i (k ∷ j ∷ ks)
swap_heads i j k ks (Memᴰ.head e) = Memᴰ.tail (Memᴰ.head e)
swap_heads i j k ks (Memᴰ.tail (Memᴰ.head e)) = Memᴰ.head e
swap_heads i j k ks (Memᴰ.tail (Memᴰ.tail m)) = Memᴰ.tail (Memᴰ.tail m)

insert_cases :
    (i k j : Text) (js : List Text) (b : Bool)
    → Memᴰ i (insert_sorted k js) ↔ Memᴰ i (k ∷ js)
    → Memᴰ i (if b then k ∷ j ∷ js else j ∷ insert_sorted k js) ↔ Memᴰ i (k ∷ j ∷ js)
insert_cases i k j js true ih = (λ m. m, λ m. m)
insert_cases i k j js false ih = (
  λ m. swap_heads i j k js (under_cons i j (insert_sorted k js) (k ∷ js) ih.0 m),
  λ m. under_cons i j (k ∷ js) (insert_sorted k js) ih.1 (swap_heads i k j js m),
)

Memᴰ-insert_sorted : (i k : Text) (ks : List Text) → Memᴰ i (insert_sorted k ks) ↔ Memᴰ i (k ∷ ks)
unfolding insert_sorted
Memᴰ-insert_sorted i k [] = (λ m. m, λ m. m)
Memᴰ-insert_sorted i k (j ∷ js) = insert_cases i k j js (text_leb k j) (Memᴰ-insert_sorted i k js)

-- `sorted` keeps the items.
pub Memᴰ-sorted : (i : Text) (ks : List Text) → Memᴰ i (sorted ks) ↔ Memᴰ i ks
unfolding sorted
Memᴰ-sorted i [] = (λ m. m, λ m. m)
Memᴰ-sorted i (k ∷ ks) =
    let step = Memᴰ-insert_sorted i k (sorted ks) in
    let ih = Memᴰ-sorted i ks in
    (
      λ m. under_cons i k (sorted ks) ks ih.0 (step.0 m),
      λ m. step.1 (under_cons i k ks (sorted ks) ih.1 m),
    )

pub All-sorted : (P : Text → Type 0) (ks : List Text) → All P ks → All P (sorted ks)
unfolding sorted
All-sorted P [] h = tt
All-sorted P (k ∷ ks) (h, hs) = All-insert_sorted P k (sorted ks) h (All-sorted P ks hs)

insert_perm :
    (b : Bool) (k j : Text) (js ks : List Text)
    → Permᴰ ks (k ∷ js)
    → Permᴰ (if b then k ∷ j ∷ js else j ∷ ks) (k ∷ j ∷ js)
insert_perm true k j js ks p = Permᴰ.refl _
insert_perm false k j js ks p = Permᴰ.trans (Permᴰ.cons refl p) (Permᴰ.swap refl refl)

insert_sorted-Permᴰ : (k : Text) (ks : List Text) → Permᴰ (insert_sorted k ks) (k ∷ ks)
unfolding insert_sorted
insert_sorted-Permᴰ k [] = Permᴰ.refl _
insert_sorted-Permᴰ k (j ∷ js) =
    insert_perm (text_leb k j) k j js (insert_sorted k js) (insert_sorted-Permᴰ k js)

sorted-Permᴰ : (ks : List Text) → Permᴰ (sorted ks) ks
unfolding sorted
sorted-Permᴰ [] = Permᴰ.refl _
sorted-Permᴰ (k ∷ ks) =
    Permᴰ.trans (insert_sorted-Permᴰ k (sorted ks)) (Permᴰ.cons refl (sorted-Permᴰ ks))

-- `ids` are the items of `ks`, each as often as there, in order.
pub record IsArranged (ks ids : List Text) : Type 0 where
  pub ordered : IsSorted ids
  pub same : Permᴰ ids ks

pub sorted-IsArranged : (ks : List Text) → IsArranged ks (sorted ks)
sorted-IsArranged ks = record { ordered = sorted-IsSorted ks; same = sorted-Permᴰ ks }
