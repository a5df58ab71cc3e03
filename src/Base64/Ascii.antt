-- ===== src/Base64/Ascii.antt =====
-- Texts in ASCII and their encoding.
use cluster_size_operator_fo.Prelude.{ℕ, ◌<◌, ◌≡◌, refl, some, [], ◌∷◌, arith, All, nat_eq}
use mathlib.Core.Option
use cluster_size_operator_fo.Text.{Text}
use cluster_size_operator_fo.Base64.{decode_utf8, utf8_decode, encode_char, utf8_encode}

abbrev pub IsAscii : Text → Type 0
IsAscii = All (λ c. c < 128)

pub utf8_encode-IsAscii : (s : Text) → IsAscii s → utf8_encode s ≡ s
unfolding utf8_encode encode_char
utf8_encode-IsAscii [] h = refl
utf8_encode-IsAscii (c ∷ s) (h, hs) = ground (arith, utf8_encode-IsAscii s hs)

decode_ascii :
    (c : ℕ) (s : Text)
    → c < 128
    → decode_utf8 (c ∷ s) 0 0 0 0 ≡ Option.map (λ r. c ∷ r) (decode_utf8 s 0 0 0 0)
unfolding decode_utf8
decode_ascii c s h = ground arith

pub utf8_decode-IsAscii : (s : Text) → IsAscii s → utf8_decode s ≡ some s
unfolding utf8_decode
utf8_decode-IsAscii [] h = unfold decode_utf8 nat_eq in refl
utf8_decode-IsAscii (c ∷ s) (h, hs) = rw (decode_ascii c s h, utf8_decode-IsAscii s hs) refl
