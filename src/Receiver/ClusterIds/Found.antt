-- ===== src/Receiver/ClusterIds/Found.antt =====
-- What the pattern of cluster ids finds.
use cluster_size_operator_fo.Prelude.{
  ℕ, zero, suc, ◌≡◌, ◌≢◌, refl, ◌∙◌, ap, inl, inr, Bool, true, false, [], ◌∷◌, ◌++◌, ◌==◌, contains,
  nat_eq, list_eq, eq_self, Bool-cases, if◌then◌else◌, arith, All, length, take, drop,
}
use cluster_size_operator_fo.Text.{Text, codes, is_space}
use cluster_size_operator_fo.Text.Strip.{AllSolid}
use cluster_size_operator_fo.Receiver.ClusterIds.{
  is_hex, is_word, id_shape, fits, ends_word, is_id_at, find_ids, discovered_ids,
}
use cluster_size_operator_fo.Receiver.ClusterIds.Sets.{contains-unique}

-- A text of the form of an id.
pub record IsId (id : Text) : Type 0 where
  pub long : length id ≡ 36
  pub shape : fits id_shape id ≡ true

char-solid : (p c : ℕ) → (if p == b'-' then c == b'-' else is_hex c) ≡ true → is_space c ≡ false
unfolding is_space
char-solid p c h = ground arith

fits-AllSolid : (ps s : Text) → length s ≡ length ps → fits ps s ≡ true → AllSolid s
unfolding fits
fits-AllSolid ps [] e h = tt
fits-AllSolid [] (c ∷ s) e h = absurd (omega (arith, e))
fits-AllSolid (p ∷ ps) (c ∷ s) e h =
    (ground (arith, char-solid p c), fits-AllSolid ps s (omega (arith, e)) (ground arith))

pub IsId-AllSolid : (id : Text) → IsId id → AllSolid id
IsId-AllSolid id h = fits-AllSolid id_shape id h.long h.shape

fits-All :
    (P : ℕ → Type 0) (ps s : Text)
    → ((c : ℕ) → is_hex c ≡ true → P c)
    → P b'-'
    → length s ≡ length ps
    → fits ps s ≡ true
    → All P s
unfolding fits
fits-All P ps [] f d e h = tt
fits-All P [] (c ∷ s) f d e h = absurd (omega (arith, e))
fits-All P (p ∷ ps) (c ∷ s) f d e h =
    (ground (arith, f c), fits-All P ps s f d (omega (arith, e)) (ground arith))

-- What holds of the hyphen and of each hexadecimal digit holds of each character of an id.
pub IsId-All :
    (P : ℕ → Type 0) (id : Text) → ((c : ℕ) → is_hex c ≡ true → P c) → P b'-' → IsId id → All P id
IsId-All P id f d h = fits-All P id_shape id f d h.long h.shape

pub IsId-ne-nil : (id : Text) → IsId id → id ≢ []
IsId-ne-nil id h e = omega (arith, ap (λ (s : Text). length s) e, h.long)

fits-take :
    (ps s : Text)
    → fits ps s ≡ true
    → (length (take (length ps) s) ≡ length ps) × (fits ps (take (length ps) s) ≡ true)
unfolding fits
fits-take [] s h = (refl, refl)
fits-take (p ∷ ps) [] h = cc
fits-take (p ∷ ps) (c ∷ s) h =
    let (e, k) = fits-take ps s (ground arith) in (omega (arith, e), ground (arith, k))

hit_IsId :
    (wide_word : ℕ → Bool) (behind_word : Bool) (s : Text)
    → is_id_at wide_word behind_word s ≡ true
    → IsId (take 36 s)
unfolding is_id_at
hit_IsId wide_word behind_word s h =
    let (e, k) = fits-take id_shape s (ground arith) in record { long = e; shape = k }

-- Only ids are found.
pub find_ids-IsId :
    (wide_word : ℕ → Bool) (behind_word : Bool) (skip : ℕ) (s : Text)
    → All IsId (find_ids wide_word behind_word skip s)
unfolding find_ids
find_ids-IsId wide_word behind_word skip [] = tt
find_ids-IsId wide_word behind_word (suc skip) (c ∷ s) =
    find_ids-IsId wide_word (is_word wide_word c) skip s
find_ids-IsId wide_word behind_word zero (c ∷ s) =
    elim (Bool-cases (is_id_at wide_word behind_word (c ∷ s))) [
      | inl e ↦ rw e (
        hit_IsId wide_word behind_word (c ∷ s) e,
        find_ids-IsId wide_word (is_word wide_word c) 35 s,
      )
      | inr e ↦ rw e (find_ids-IsId wide_word (is_word wide_word c) 0 s)
    ]

take-all : (xs ys : Text) (n : ℕ) → length xs ≡ n → take n (xs ++ ys) ≡ xs
take-all [] ys zero e = refl
take-all [] ys (suc n) e = absurd (omega (arith, e))
take-all (x ∷ xs) ys zero e = absurd (omega (arith, e))
take-all (x ∷ xs) ys (suc n) e = ap (λ t. x ∷ t) (take-all xs ys n (omega (arith, e)))

drop-all : (xs ys : Text) (n : ℕ) → length xs ≡ n → drop n (xs ++ ys) ≡ ys
drop-all [] ys zero e = refl
drop-all [] ys (suc n) e = absurd (omega (arith, e))
drop-all (x ∷ xs) ys zero e = absurd (omega (arith, e))
drop-all (x ∷ xs) ys (suc n) e = drop-all xs ys n (omega (arith, e))

fits-append : (ps s rest : Text) → fits ps s ≡ true → fits ps (s ++ rest) ≡ true
unfolding fits
fits-append [] s rest h = refl
fits-append (p ∷ ps) [] rest h = cc
fits-append (p ∷ ps) (c ∷ s) rest h = ground (arith, fits-append ps s rest)

id_here :
    (wide_word : ℕ → Bool) (id rest : Text)
    → IsId id
    → ends_word wide_word rest ≡ true
    → is_id_at wide_word false (id ++ rest) ≡ true
unfolding is_id_at
id_here wide_word id rest h k =
    rw (fits-append id_shape id rest h.shape, drop-all id rest 36 h.long) k

-- An id behind the start of a text, and with no letter or digit behind it, is found.
found_here :
    (wide_word : ℕ → Bool) (id rest : Text)
    → IsId id
    → ends_word wide_word rest ≡ true
    → contains (find_ids wide_word false 0 (id ++ rest)) id ≡ true
unfolding find_ids
found_here wide_word [] rest h k = absurd (IsId-ne-nil [] h refl)
found_here wide_word (c ∷ id) rest h k =
    rw
      (
        id_here wide_word (c ∷ id) rest h k,
        ap (λ (t : Text). c ∷ t) (take-all id rest 35 (omega (arith, h.long))),
        eq_self (c ∷ id),
      )
      refl

no_id_at :
    (wide_word : ℕ → Bool) (behind_word : Bool) (c : ℕ) (s : Text)
    → is_hex c ≡ false
    → is_id_at wide_word behind_word (c ∷ s) ≡ false
unfolding is_id_at fits
no_id_at wide_word behind_word c s h = ground arith

no_hit :
    (wide_word : ℕ → Bool) (behind_word : Bool) (c : ℕ) (s : Text)
    → is_hex c ≡ false
    → find_ids wide_word behind_word 0 (c ∷ s) ≡ find_ids wide_word (is_word wide_word c) 0 s
unfolding find_ids
no_hit wide_word behind_word c s h = rw (no_id_at wide_word behind_word c s h) refl

-- The id in the first row of a message is discovered.
pub header-discovered_ids :
    (wide_word : ℕ → Bool) (id rest : Text)
    → IsId id
    → contains (discovered_ids wide_word (codes "H," ++ (id ++ b',' ∷ rest))) id ≡ true
unfolding discovered_ids nat_eq
header-discovered_ids wide_word id rest h =
    contains-unique _ id
    ∙ ap (λ ids. contains ids id)
        (no_hit wide_word false b'H' (b',' ∷ (id ++ b',' ∷ rest)) refl
          ∙ no_hit wide_word (is_word wide_word b'H') b',' (id ++ b',' ∷ rest) refl)
    ∙ found_here wide_word id (b',' ∷ rest) h refl
