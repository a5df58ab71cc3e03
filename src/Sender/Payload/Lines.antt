-- ===== src/Sender/Payload/Lines.antt =====
-- The lines that the receiver finds in a signed text.
use cluster_size_operator_fo.Prelude.{
  ℕ, ◌<◌, ◌≡◌, ◌≢◌, refl, ◌∙◌, sym, ap, true, false, List, [], ◌∷◌, ◌++◌, append_assoc, arith, All,
  All-append, All-map_imp, nat_eq, subst,
}
use cluster_size_operator_fo.Text.{Text, codes, is_space, strip, split, join, starts_with}
use cluster_size_operator_fo.Text.Strip.{StartsSolid, AllSolid, strip_newline}
use cluster_size_operator_fo.Text.Split.{Lacks, split-join}
use cluster_size_operator_fo.Receiver.Message.{is_t, is_protected, protected_lines, raw_lines}
use cluster_size_operator_fo.Sender.Payload.{signed_text}

-- A character of a line: in ASCII, and no newline.
abbrev pub IsPlain : ℕ → Type 0
IsPlain c = (c < 128) × (c ≢ b'\n')

-- A line of a payload that the signature covers.
pub record IsRow (line : Text) : Type 0 where
  pub protected : is_protected line ≡ true
  pub plain : All IsPlain line

-- A digest: plain characters that are no white space, and at least one.
pub record IsSolid (mac : Text) : Type 0 where
  pub some_text : mac ≢ []
  pub solid : AllSolid mac
  pub plain : All IsPlain mac

abbrev pub t_line : Text → Text
t_line mac = codes "T," ++ mac

row-StartsSolid : (line rest : Text) → is_protected line ≡ true → StartsSolid (line ++ rest)
unfolding starts_with is_space
row-StartsSolid [] rest h = cc
row-StartsSolid (c ∷ line) rest h = ground arith

join-StartsSolid :
    (p : Text) (ps : List Text) (rest : Text)
    → is_protected p ≡ true
    → StartsSolid (join b'\n' (p ∷ ps) ++ rest)
unfolding join
join-StartsSolid p [] rest h = row-StartsSolid p rest h
join-StartsSolid p (q ∷ ps) rest h =
    subst StartsSolid (sym (append_assoc p (b'\n' ∷ join b'\n' (q ∷ ps)) rest))
      (row-StartsSolid p _ h)

join-last :
    (p : Text) (ps : List Text) (q : Text)
    → join b'\n' (p ∷ ps) ++ b'\n' ∷ q ≡ join b'\n' (p ∷ (ps ++ q ∷ []))
unfolding join
join-last p [] q = refl
join-last p (r ∷ ps) q =
    append_assoc p (b'\n' ∷ join b'\n' (r ∷ ps)) (b'\n' ∷ q)
    ∙ ap (λ s. p ++ b'\n' ∷ s) (join-last r ps q)

pub rows-plain : (lines : List Text) → All IsRow lines → All (All IsPlain) lines
rows-plain lines h = All-map_imp IsRow (All IsPlain) lines (λ line r. r.plain) h

plain-Lacks : (s : Text) → All IsPlain s → Lacks b'\n' s
plain-Lacks s h = All-map_imp IsPlain (λ c. c ≢ b'\n') s (λ c p. p.1) h

pub t_line-plain : (mac : Text) → IsSolid mac → All IsPlain (t_line mac)
t_line-plain mac h = ((omega arith, omega arith), ((omega arith, omega arith), h.plain))

all_lines-Lacks :
    (lines : List Text) (mac : Text)
    → All IsRow lines
    → IsSolid mac
    → All (Lacks b'\n') (lines ++ t_line mac ∷ [])
all_lines-Lacks lines mac h m =
    All-map_imp (All IsPlain) (Lacks b'\n') (lines ++ t_line mac ∷ []) plain-Lacks (
      All-append (All IsPlain) lines (t_line mac ∷ []) (rows-plain lines h)
        (t_line-plain mac m, tt))

signed_start :
    (line : Text) (lines : List Text) (mac : Text)
    → is_protected line ≡ true
    → StartsSolid ((join b'\n' (line ∷ lines) ++ b'\n' ∷ []) ++ (codes "T," ++ (mac ++ b'\n' ∷ [])))
signed_start line lines mac h =
    subst StartsSolid
      (sym
        (append_assoc (join b'\n' (line ∷ lines)) (b'\n' ∷ []) (codes "T," ++ (mac ++ b'\n' ∷ []))))
      (join-StartsSolid line lines _ h)

-- The text of the lines `j`, with the newline that ends each.
signed_parts :
    (j mac : Text)
    → (j ++ b'\n' ∷ []) ++ (codes "T," ++ (mac ++ b'\n' ∷ []))
      ≡ (j ++ b'\n' ∷ codes "T,") ++ (mac ++ b'\n' ∷ [])
signed_parts j mac =
    append_assoc j (b'\n' ∷ []) (codes "T," ++ (mac ++ b'\n' ∷ []))
    ∙ sym (append_assoc j (b'\n' ∷ codes "T,") (mac ++ b'\n' ∷ []))

pub raw_lines-signed_text :
    (line : Text) (lines : List Text) (mac : Text)
    → All IsRow (line ∷ lines)
    → IsSolid mac
    → raw_lines (signed_text (line ∷ lines) mac) ≡ (line ∷ lines) ++ t_line mac ∷ []
unfolding signed_text
raw_lines-signed_text line lines mac (r, rs) m =
    let j : Text = join b'\n' (line ∷ lines) in
    let e : signed_text (line ∷ lines) mac ≡ (j ++ b'\n' ∷ codes "T,") ++ (mac ++ b'\n' ∷ []) =
      unfold signed_text in signed_parts j mac in
    ap (split b'\n') (
      ap strip e
      ∙ strip_newline ((j ++ b'\n' ∷ codes "T,")) mac
          (subst StartsSolid (signed_parts j mac) (signed_start line lines mac r.protected)) m.solid
          m.some_text
      ∙ append_assoc j (b'\n' ∷ codes "T,") mac
      ∙ join-last line lines (t_line mac))
    ∙ split-join b'\n' line (lines ++ t_line mac ∷ []) (plain-Lacks line r.plain)
        (all_lines-Lacks lines mac rs m)

protected-not-is_t : (line : Text) → is_protected line ≡ true → is_t line ≡ false
unfolding starts_with
protected-not-is_t [] h = cc
protected-not-is_t (c ∷ line) h = ground arith

pub protected_lines-rows : (lines : List Text) → All IsRow lines → protected_lines lines ≡ lines
unfolding protected_lines
protected_lines-rows [] h = refl
protected_lines-rows (line ∷ lines) (r, rs) =
    ground (arith, protected_lines-rows lines rs, r.protected, protected-not-is_t line)
