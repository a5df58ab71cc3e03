-- ===== src/Receiver/Message/Signature.antt =====
-- What the signature of a message binds.
use cluster_size_operator_fo.Prelude.{
  ℕ, ◌≡◌, ◌≢◌, refl, ◌∙◌, ap, sym, true, Option, none, some, List, [], ◌∷◌, ◌++◌, list_eq, nat_eq,
  arith, All,
}
use cluster_size_operator_fo.Text.{Text, codes, split, split_once, join, starts_with, strip}
use cluster_size_operator_fo.Text.Split.{Lacks, split-join}
use cluster_size_operator_fo.Base64.{Bytes}
use cluster_size_operator_fo.Receiver.Message.{
  Crypto, verified, is_t, find_t, protected_lines, expected_mac, calculated_mac, integrity,
}

pub find_t_last :
    (lines : List Text) (t : Text) (found : Option Text)
    → is_t t ≡ true
    → find_t (lines ++ t ∷ []) found ≡ some t
unfolding find_t
find_t_last [] t found h = ground arith
find_t_last (line ∷ lines) t found h = find_t_last lines t _ h

pub protected_lines_last :
    (lines : List Text) (t : Text)
    → is_t t ≡ true
    → protected_lines (lines ++ t ∷ []) ≡ protected_lines lines
unfolding protected_lines
protected_lines_last [] t h = ground arith
protected_lines_last (line ∷ lines) t h = ground (arith, protected_lines_last lines t h)

-- The line that a sender puts behind its lines.
abbrev pub signature_line : Crypto → Bytes → List Text → Text
signature_line c salt lines = codes "T," ++ calculated_mac c salt (protected_lines lines)

signature_line-is_t :
    (c : Crypto) (salt : Bytes) (lines : List Text) → is_t (signature_line c salt lines) ≡ true
unfolding starts_with nat_eq
signature_line-is_t c salt lines = refl

pub expected_mac_of : (mac : Text) → expected_mac (codes "T," ++ mac) ≡ strip mac
unfolding expected_mac split_once nat_eq
expected_mac_of mac = refl

-- Lines with the signature of their protected lines behind them are found `VERIFIED`, if the digest has no white space
-- at its ends.
pub integrity-signature_line :
    (c : Crypto) (salt : Bytes) (lines : List Text)
    → strip (calculated_mac c salt (protected_lines lines))
      ≡ calculated_mac c salt (protected_lines lines)
    → integrity c salt (lines ++ signature_line c salt lines ∷ []) ≡ verified
unfolding integrity
integrity-signature_line c salt lines solid =
    rw
      (
        find_t_last lines (signature_line c salt lines) none (signature_line-is_t c salt lines),
        protected_lines_last lines (signature_line c salt lines) (signature_line-is_t c salt lines),
        expected_mac_of (calculated_mac c salt (protected_lines lines)),
        solid,
      )
      ground arith

join-ne-nil : (p : Text) (ps : List Text) → p ≢ [] → join b'\n' (p ∷ ps) ≢ []
unfolding join
join-ne-nil [] ps h = absurd (h refl)
join-ne-nil (c ∷ p) [] h = cc
join-ne-nil (c ∷ p) (q ∷ ps) h = cc

pub join_inj :
    (ps qs : List Text)
    → All (λ p. p ≢ []) ps
    → All (Lacks b'\n') ps
    → All (λ p. p ≢ []) qs
    → All (Lacks b'\n') qs
    → join b'\n' ps ≡ join b'\n' qs
    → ps ≡ qs
join_inj [] [] hp lp hq lq e = refl
join_inj [] (q ∷ qs) hp lp (hq, hqs) lq e =
    absurd (join-ne-nil q qs hq (sym e ∙ (unfold join in refl)))
join_inj (p ∷ ps) [] (hp, hps) lp hq lq e = absurd (join-ne-nil p ps hp (e ∙ (unfold join in refl)))
join_inj (p ∷ ps) (q ∷ qs) hp (lp, lps) hq (lq, lqs) e =
    sym (split-join b'\n' p ps lp lps) ∙ ap (split b'\n') e ∙ split-join b'\n' q qs lq lqs

pub snoc_inj : (xs ys : Text) (c : ℕ) → xs ++ c ∷ [] ≡ ys ++ c ∷ [] → xs ≡ ys
snoc_inj [] [] c e = refl
snoc_inj [] (y ∷ []) c e = cc
snoc_inj [] (y ∷ z ∷ ys) c e = cc
snoc_inj (x ∷ []) [] c e = cc
snoc_inj (x ∷ z ∷ xs) [] c e = cc
snoc_inj (x ∷ xs) (y ∷ ys) c e = ground (arith, snoc_inj xs ys c)
