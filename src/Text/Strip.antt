-- ===== src/Text/Strip.antt =====
-- Laws of `strip`.
use cluster_size_operator_fo.Prelude.{
  ℕ, ◌≡◌, ◌≢◌, refl, ◌∙◌, ap, inl, inr, false, [], ◌∷◌, ◌++◌, All, Bool-cases, nat_eq,
}
use cluster_size_operator_fo.Text.{Text, is_space, lstrip, keep, rstrip, strip}

-- The first character, if there is one, is no white space.
abbrev pub StartsSolid : Text → Type 0
StartsSolid [] = Unit
StartsSolid (c ∷ s) = is_space c ≡ false

lstrip-StartsSolid : (s : Text) → StartsSolid (lstrip s)
unfolding lstrip
lstrip-StartsSolid [] = tt
lstrip-StartsSolid (c ∷ s) = elim (Bool-cases (is_space c)) [
  | inl e ↦ rw e (lstrip-StartsSolid s)
  | inr e ↦ rw e e
]

pub lstrip_solid : (s : Text) → StartsSolid s → lstrip s ≡ s
unfolding lstrip
lstrip_solid [] h = refl
lstrip_solid (c ∷ s) h = rw h

keep-StartsSolid : (c : ℕ) (s : Text) → is_space c ≡ false → StartsSolid (keep c s)
keep-StartsSolid c [] h = rw h h
keep-StartsSolid c (d ∷ s) h = h

rstrip-StartsSolid : (s : Text) → StartsSolid s → StartsSolid (rstrip s)
unfolding rstrip
rstrip-StartsSolid [] h = tt
rstrip-StartsSolid (c ∷ s) h = keep-StartsSolid c (rstrip s) h

rstrip-keep : (c : ℕ) (s : Text) → rstrip s ≡ s → rstrip (keep c s) ≡ keep c s
unfolding rstrip
rstrip-keep c [] h = elim (Bool-cases (is_space c)) [ inl e ↦ rw e | inr e ↦ rw e (rw e) ]
rstrip-keep c (d ∷ s) h = rw h

pub rstrip_idem : (s : Text) → rstrip (rstrip s) ≡ rstrip s
unfolding rstrip
rstrip_idem [] = refl
rstrip_idem (c ∷ s) = rstrip-keep c (rstrip s) (rstrip_idem s)

-- Stripping twice is stripping once.
pub strip_idem : (s : Text) → strip (strip s) ≡ strip s
unfolding strip
strip_idem s =
    rw (lstrip_solid (rstrip (lstrip s)) (rstrip-StartsSolid (lstrip s) (lstrip-StartsSolid s)))
      (rstrip_idem (lstrip s))

pub keep_solid : (c : ℕ) (s : Text) → is_space c ≡ false → keep c s ≡ c ∷ s
keep_solid c [] h = rw h
keep_solid c (d ∷ s) h = refl

keep_more : (c : ℕ) (s : Text) → s ≢ [] → keep c s ≡ c ∷ s
keep_more c [] h = absurd (h refl)
keep_more c (d ∷ s) h = refl

abbrev pub AllSolid : Text → Type 0
AllSolid = All (λ c. is_space c ≡ false)

rstrip_newline : (s : Text) → AllSolid s → rstrip (s ++ b'\n' ∷ []) ≡ s
unfolding rstrip nat_eq
rstrip_newline [] h = refl
rstrip_newline (c ∷ s) (h, hs) = rw (rstrip_newline s hs) (keep_solid c s h)

append-ne-nil : (s n : Text) → n ≢ [] → s ++ n ≢ []
append-ne-nil [] n k h = k h
append-ne-nil (c ∷ s) n k h = cc

rstrip_behind : (s m n : Text) → rstrip m ≡ n → n ≢ [] → rstrip (s ++ m) ≡ s ++ n
unfolding rstrip
rstrip_behind [] m n h k = h
rstrip_behind (c ∷ s) m n h k =
    rw (rstrip_behind s m n h k) (keep_more c (s ++ n) (append-ne-nil s n k))

-- The newline behind a text that starts solid and ends with a word goes, and nothing else.
pub strip_newline :
    (s word : Text)
    → StartsSolid (s ++ (word ++ b'\n' ∷ []))
    → AllSolid word
    → word ≢ []
    → strip (s ++ (word ++ b'\n' ∷ [])) ≡ s ++ word
unfolding strip
strip_newline s word h k n =
    ap rstrip (lstrip_solid (s ++ (word ++ b'\n' ∷ [])) h)
    ∙ rstrip_behind s (word ++ b'\n' ∷ []) word (rstrip_newline word k) n

rstrip_solid : (s : Text) → AllSolid s → rstrip s ≡ s
unfolding rstrip
rstrip_solid [] h = refl
rstrip_solid (c ∷ s) (h, hs) = rw (rstrip_solid s hs) (keep_solid c s h)

pub strip_solid : (s : Text) → AllSolid s → strip s ≡ s
unfolding strip
strip_solid [] h = unfold lstrip rstrip in refl
strip_solid (c ∷ s) (h, hs) = ap rstrip (lstrip_solid (c ∷ s) h) ∙ rstrip_solid (c ∷ s) (h, hs)
