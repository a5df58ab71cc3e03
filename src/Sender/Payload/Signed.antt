-- ===== src/Sender/Payload/Signed.antt =====
-- How the receiver judges a signed text.
use cluster_size_operator_fo.Prelude.{
  ℕ, ◌<◌, ◌≡◌, ◌≢◌, refl, ◌∙◌, ap, true, Bool, ◌&&◌, ◌||◌, List, [], ◌∷◌, ◌++◌, arith, All,
  All-append, All-map_imp, none, false, nat_eq, list_eq, ◌==◌, if◌then◌else◌, leb, length,
  length-append, ◌+◌,
}
use cluster_size_operator_fo.Text.{Text, is_space, join, starts_with}
use cluster_size_operator_fo.Text.Strip.{strip_solid}
use cluster_size_operator_fo.Text.Split.{Lacks}
use cluster_size_operator_fo.Base64.{Bytes}
use cluster_size_operator_fo.Base64.Ascii.{IsAscii}
use cluster_size_operator_fo.Receiver.Message.{
  Crypto, verified, tampered, integrity, is_t, is_protected, raw_lines, hash_input, calculated_mac,
}
use cluster_size_operator_fo.Receiver.Message.Signature.{
  find_t_last, protected_lines_last, expected_mac_of, join_inj, snoc_inj,
}
use cluster_size_operator_fo.Sender.Payload.{joined_lines, signed_text}
use cluster_size_operator_fo.Sender.Payload.Lines.{
  IsPlain, IsRow, IsSolid, t_line, rows-plain, raw_lines-signed_text, protected_lines-rows,
}

abbrev pub is_hex : ℕ → Bool
is_hex c = (leb b'0' c && leb c b'9') || (leb b'a' c && leb c b'f')

-- What `hexdigest` of SHA-256 returns: 64 hexadecimal digits.
pub record IsHexdigest (mac : Text) : Type 0 where
  pub long : length mac ≡ 64
  pub digits : All (λ c. is_hex c ≡ true) mac

hex-solid : (c : ℕ) → is_hex c ≡ true → is_space c ≡ false
unfolding is_space
hex-solid c h = ground arith

hex-IsPlain : (c : ℕ) → is_hex c ≡ true → IsPlain c
hex-IsPlain c h = ground arith

pub hexdigest-IsSolid : (mac : Text) → IsHexdigest mac → IsSolid mac
hexdigest-IsSolid mac h = record {
  some_text = λ e. omega (arith, ap (λ (s : Text). length s) e, h.long);
  solid = All-map_imp (λ c. is_hex c ≡ true) (λ c. is_space c ≡ false) mac hex-solid h.digits;
  plain = All-map_imp (λ c. is_hex c ≡ true) IsPlain mac hex-IsPlain h.digits;
}

t_line-is_t : (mac : Text) → is_t (t_line mac) ≡ true
t_line-is_t mac = unfold starts_with nat_eq in refl

pub integrity-signed_text :
    (c : Crypto) (salt : Bytes) (line : Text) (lines : List Text) (mac : Text)
    → All IsRow (line ∷ lines)
    → IsSolid mac
    → integrity c salt (raw_lines (signed_text (line ∷ lines) mac))
      ≡ (if calculated_mac c salt (line ∷ lines) == mac then verified else tampered)
unfolding integrity
integrity-signed_text c salt line lines mac rows m =
    rw
      (
        raw_lines-signed_text line lines mac rows m,
        find_t_last (line ∷ lines) (t_line mac) none (t_line-is_t mac),
        protected_lines_last (line ∷ lines) (t_line mac) (t_line-is_t mac),
        protected_lines-rows (line ∷ lines) rows,
        expected_mac_of mac,
        strip_solid mac m.solid,
      )
      refl

pub length-signed_text :
    (line : Text) (lines : List Text) (mac : Text)
    → All IsRow (line ∷ lines)
    → IsSolid mac
    → length (raw_lines (signed_text (line ∷ lines) mac)) ≡ length (line ∷ lines) + 1
length-signed_text line lines mac rows m =
    ap (λ (ls : List Text). length ls) (raw_lines-signed_text line lines mac rows m)
    ∙ length-append (line ∷ lines) (t_line mac ∷ [])

IsAscii-lines : (lines : List Text) → All (All IsPlain) lines → IsAscii (join b'\n' lines)
unfolding join
IsAscii-lines [] h = tt
IsAscii-lines (p ∷ []) (h, hs) = All-map_imp IsPlain (λ c. c < 128) p (λ c k. k.0) h
IsAscii-lines (p ∷ q ∷ lines) (h, hs) =
    All-append (λ c. c < 128) p (b'\n' ∷ join b'\n' (q ∷ lines))
      (All-map_imp IsPlain (λ c. c < 128) p (λ c k. k.0) h)
      (omega arith, IsAscii-lines (q ∷ lines) hs)

pub signed_text-IsAscii :
    (lines : List Text) (mac : Text)
    → All IsRow lines
    → IsSolid mac
    → IsAscii (signed_text lines mac)
unfolding signed_text
signed_text-IsAscii lines mac rows m =
    All-append (λ c. c < 128) (joined_lines lines) (t_line mac ++ b'\n' ∷ [])
      (All-append (λ c. c < 128) (join b'\n' lines) (b'\n' ∷ [])
        (IsAscii-lines lines (rows-plain lines rows)) (omega arith, tt))
      (
        omega arith,
        (
          omega arith,
          All-append (λ c. c < 128) mac (b'\n' ∷ [])
              (All-map_imp IsPlain (λ c. c < 128) mac (λ c k. k.0) m.plain) (omega arith, tt),
        ),
      )

row-ne-nil : (line : Text) → is_protected line ≡ true → line ≢ []
unfolding starts_with
row-ne-nil [] h = cc
row-ne-nil (c ∷ line) h = cc

-- Different rows are hashed as different texts.
pub hash_input-inj :
    (ps qs : List Text) → All IsRow ps → All IsRow qs → hash_input ps ≡ hash_input qs → ps ≡ qs
hash_input-inj ps qs hp hq e =
    join_inj ps qs (solid ps hp) (lacks ps hp) (solid qs hq) (lacks qs hq) (snoc_inj _ _ b'\n' e)
  where
    solid : (ls : List Text) → All IsRow ls → All (λ l. l ≢ []) ls
    solid ls h = All-map_imp IsRow (λ l. l ≢ []) ls (λ l r. row-ne-nil l r.protected) h

    lacks : (ls : List Text) → All IsRow ls → All (Lacks b'\n') ls
    lacks ls h =
        All-map_imp IsRow (Lacks b'\n') ls
          (λ l r. All-map_imp IsPlain (λ c. c ≢ b'\n') l (λ c k. k.1) r.plain) h
