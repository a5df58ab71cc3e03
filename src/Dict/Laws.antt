-- ===== src/Dict/Laws.antt =====
-- Laws of dictionaries.
use cluster_size_operator_fo.Prelude.{
  ◌≡◌, ◌≢◌, refl, Option, true, Option, none, some, List, [], ◌∷◌, ◌++◌, arith, Eq, ◌==◌, contains,
  if◌then◌else◌, All, All-map_imp, true,
}
use cluster_size_operator_fo.Dict.{Dict, keys, last, lookup, insert, erase, has_key, is_some}

module _ {ℓ κ} {K : Type ℓ} {V : Type κ} ⦃e : Eq K⦄ where
  pub lookup-insert :
      (j k : K) (v : V) (d : Dict K V)
      → lookup j (insert k v d) ≡ (if j == k then some v else lookup j d)
  unfolding insert lookup
  lookup-insert j k v [] = refl
  lookup-insert j k v ((i, w) ∷ d) = ground (arith, lookup-insert j k v d)

  pub lookup-erase :
      (j k : K) (d : Dict K V) → lookup j (erase k d) ≡ (if j == k then none else lookup j d)
  unfolding erase lookup
  lookup-erase j k [] = ground arith
  lookup-erase j k ((i, w) ∷ d) = ground (arith, lookup-erase j k d)

  pub keys-insert :
      (k : K) (v : V) (d : Dict K V)
      → keys (insert k v d) ≡ (if contains (keys d) k then keys d else keys d ++ k ∷ [])
  unfolding insert
  keys-insert k v [] = refl
  keys-insert k v ((j, w) ∷ d) = ground (arith, keys-insert k v d)

  pub contains-keys : (k : K) (d : Dict K V) → contains (keys d) k ≡ has_key k d
  unfolding lookup
  contains-keys k [] = refl
  contains-keys k ((j, w) ∷ d) = ground (arith, contains-keys k d)

  -- No key stands twice.
  abbrev pub NodupKeys : Dict K V → Type ℓ
  NodupKeys [] = Unit
  NodupKeys ((k, v) ∷ d) = All (λ j. k ≢ j) (keys d) × NodupKeys d

module _ {ℓ} {A : Type ℓ} where
  pub last-append : (xs : List A) (a : A) → last (xs ++ a ∷ []) ≡ some a
  last-append [] a = refl
  last-append (x ∷ []) a = refl
  last-append (x ∷ y ∷ xs) a = last-append (y ∷ xs) a

module _ {ℓ} {K V : Type ℓ} ⦃e : Eq K⦄ where
  lookup-cons_keeps :
      (j k : K) (v : V) (d : Dict K V) → has_key j d ≡ true → has_key j ((k, v) ∷ d) ≡ true
  unfolding lookup
  lookup-cons_keeps j k v d h = ground arith

  lookup-cons_self : (k : K) (v : V) (d : Dict K V) → has_key k ((k, v) ∷ d) ≡ true
  unfolding lookup
  lookup-cons_self k v d = ground arith

  -- Each key of a dictionary is in it.
  pub All-has_key : (d : Dict K V) → All (λ k. has_key k d ≡ true) (keys d)
  All-has_key [] = tt
  All-has_key ((k, v) ∷ d) = (
    lookup-cons_self k v d,
    All-map_imp (λ j. has_key j d ≡ true) (λ j. has_key j ((k, v) ∷ d) ≡ true) (keys d)
        (λ j. lookup-cons_keeps j k v d) (All-has_key d),
  )

-- What an option holds.
pub is_some-some {ℓ} : {A : Type ℓ} (o : Option A) → is_some o ≡ true → (a : A) × (o ≡ some a)
is_some-some none h = cc
is_some-some (some a) h = (a, refl)
